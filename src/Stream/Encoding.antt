-- ===== src/Stream/Encoding.antt =====
-- `messageEncoder` of pkg/stream/message_encoding.go, which turns data into a message and back.
pub mod Lookups
pub mod RoundTrip
mod Examples
use Prim.Native.String.{String}
use gosoline.Prelude.{
  Bool, true, false, Option, none, some, List, [], ◌∷◌, ◌++◌, lookup, assign, is_some,
  string_comparable, if◌then◌else◌, ◌==◌,
}
use gosoline.Stream.Message.{Message, Attributes, Bytes}

abbrev pub attribute_encoding : String
attribute_encoding = "encoding"

abbrev pub attribute_compression : String
attribute_compression = "compression"

abbrev pub compression_none : String
compression_none = "none"

-- EncodeHandler: it may change the attributes, or fail
pub record EncodeHandler (T : Type 0) : Type 0 where
  pub encode : T → Attributes → Option Attributes
  pub decode : T → Attributes → Option Attributes

-- MessageBodyEncoder
pub record MessageBodyEncoder (T : Type 0) : Type 0 where
  pub encode : T → Option Bytes
  pub decode : Bytes → Option T

-- What stands behind EncodeMessage and DecodeMessage, and CompressMessage and DecompressMessage, by the
-- name of the encoding or compression; and the package base64.
pub record Codec (T : Type 0) : Type 0 where
  pub encode_message : String → T → Option Bytes
  pub decode_message : String → Bytes → Option T
  pub compress_message : String → Bytes → Option Bytes
  pub decompress_message : String → Bytes → Option Bytes
  pub base64_encode : Bytes → Bytes
  pub base64_decode : Bytes → Option Bytes

pub record MessageEncoder (T : Type 0) : Type 0 where
  pub encoding : String
  pub compression : String
  pub encode_handlers : List (EncodeHandler T)
  pub external_encoder : Option (MessageBodyEncoder T)

infixl 5 ◌>>=◌
abbrev pub ◌>>=◌ : {A B : Type 0} → Option A → (A → Option B) → Option B
none >>= f = none
some a >>= f = f a

module _ {T : Type 0} (codec : Codec T) (e : MessageEncoder T) where
  abbrev pub encode_with :
      Option (MessageBodyEncoder T) → T → Attributes → Option (Bytes × Attributes)
  encode_with (some external) value attributes =
      external.encode value >>= λ body. some (body, attributes)
  encode_with none value attributes = codec.encode_message e.encoding value >>= λ body.
      some (body, assign attribute_encoding e.encoding attributes)

  -- encodeBody
  unfoldable pub encode_body : T → Attributes → Option (Bytes × Attributes)
  encode_body value attributes = encode_with e.external_encoder value attributes

  abbrev pub compress_unless : Bool → Bytes × Attributes → Option (Bytes × Attributes)
  compress_unless true encoded = some encoded
  compress_unless false (body, attributes) =
      codec.compress_message e.compression body >>= λ compressed.
      some (codec.base64_encode compressed, assign attribute_compression e.compression attributes)

  -- compressBody
  unfoldable pub compress_body : Bytes × Attributes → Option (Bytes × Attributes)
  compress_body encoded = compress_unless (e.compression == compression_none) encoded

  -- the inner loop of mergeAttributes: an attribute that is there is an error
  unfoldable pub merge_set : Attributes → Attributes → Option Attributes
  merge_set attributes [] = some attributes
  merge_set attributes ((k, v) ∷ set) =
      let merged = merge_set (assign k v attributes) set in
      if is_some (lookup k attributes) then none else merged

  -- mergeAttributes
  unfoldable pub merge_attributes : Attributes → List Attributes → Option Attributes
  unfolding merge_set
  merge_attributes attributes [] = some attributes
  merge_attributes attributes (set ∷ sets) =
      merge_set attributes set >>= λ merged. merge_attributes merged sets

  -- the loops over the handlers
  unfoldable pub handle_encode : List (EncodeHandler T) → T → Attributes → Option Attributes
  handle_encode [] value attributes = some attributes
  handle_encode (h ∷ hs) value attributes =
      h.encode value attributes >>= λ handled. handle_encode hs value handled

  unfoldable pub handle_decode : List (EncodeHandler T) → T → Attributes → Option Attributes
  handle_decode [] value attributes = some attributes
  handle_decode (h ∷ hs) value attributes =
      h.decode value attributes >>= λ handled. handle_decode hs value handled

  -- Encode
  unfoldable pub encode : T → List Attributes → Option Message
  unfolding encode_body compress_body merge_attributes handle_encode
  encode value sets = do
    encoded ← encode_body value []
    compressed ← compress_body encoded
    merged ← merge_attributes compressed.1 sets
    handled ← handle_encode e.encode_handlers value merged
    some (record { attributes = handled; body = compressed.0 })

  abbrev pub decompress_from : Option String → Bytes → Option Bytes
  decompress_from none body = some body
  decompress_from (some compression) body =
      codec.base64_decode body >>= λ compressed. codec.decompress_message compression compressed

  -- decompressBody
  unfoldable pub decompress_body : Attributes → Bytes → Option Bytes
  decompress_body attributes body = decompress_from (lookup attribute_compression attributes) body

  abbrev pub or_encoding : Option String → String
  or_encoding none = e.encoding
  or_encoding (some encoding) = encoding

  abbrev pub decode_with : Option (MessageBodyEncoder T) → Attributes → Bytes → Option T
  decode_with (some external) attributes body = external.decode body
  decode_with none attributes body =
      codec.decode_message (or_encoding (lookup attribute_encoding attributes)) body

  -- decodeBody
  unfoldable pub decode_body : Attributes → Bytes → Option T
  decode_body attributes body = decode_with e.external_encoder attributes body

  -- Decode, of a value that starts empty
  unfoldable pub decode : Message → Option (T × Attributes)
  unfolding decompress_body decode_body handle_decode
  decode msg = do
    body ← decompress_body msg.attributes msg.body
    value ← decode_body msg.attributes body
    handled ← handle_decode e.encode_handlers value msg.attributes
    some (value, handled)
