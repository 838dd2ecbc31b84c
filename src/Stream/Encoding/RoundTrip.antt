-- ===== src/Stream/Encoding/RoundTrip.antt =====
-- That pkg/stream/message_encoding.go decodes what it encodes.
use mathlib.Core.Path.{subst}
use Prim.Native.String.{String}
use gosoline.Prelude.{
  ◌≡◌, refl, sym, ap, ◌∙◌, inl, inr, Bool, true, false, Option, none, some, List, [], ◌∷◌, lookup,
  assign, lookup-assign, is_some, string_comparable, ◌==◌, All,
}
use gosoline.Stream.Message.{Message, Attributes, Bytes}
use gosoline.Stream.Encoding.{
  attribute_encoding, attribute_compression, compression_none, MessageBodyEncoder, Codec,
  MessageEncoder, encode_with, decode_with, compress_unless, decompress_from, encode_body,
  compress_body, merge_attributes, handle_encode, handle_decode, encode, decompress_body,
  decode_body, or_encoding, decode,
}
use gosoline.Stream.Encoding.Lookups.{
  Spares, bind_inv, bind_some, merge_attributes-lookup, handle_encode-lookup,
}

-- What is relied on: each encoding and each compression can be undone.
pub record CodecLaws {T : Type 0} (codec : Codec T) : Type 0 where
  pub decodes :
      (encoding : String) (value : T) (body : Bytes)
      → codec.encode_message encoding value ≡ some body
      → codec.decode_message encoding body ≡ some value
  pub decompresses :
      (compression : String) (body compressed : Bytes)
      → codec.compress_message compression body ≡ some compressed
      → codec.decompress_message compression compressed ≡ some body
  pub unbase64 : (body : Bytes) → codec.base64_decode (codec.base64_encode body) ≡ some body

abbrev Undoes : {T : Type 0} → Option (MessageBodyEncoder T) → Type 0
Undoes none = Unit
Undoes {T} (some x) =
    (value : T) (body : Bytes) → x.encode value ≡ some body → x.decode body ≡ some value

module _ {T : Type 0} (codec : Codec T) (laws : CodecLaws codec) (e : MessageEncoder T) where
  -- How the body is read again, by the attributes that the message has in the end.
  encode_with-decode_with :
      (x : Option (MessageBodyEncoder T)) (value : T) (body : Bytes) (before : Attributes)
      → Undoes x
      → encode_with codec e x value [] ≡ some (body, before)
      → (lookup attribute_compression before ≡ none)
        × ((after : Attributes)
            → ((is_some (lookup attribute_encoding before) ≡ true)
                → lookup attribute_encoding after ≡ lookup attribute_encoding before)
            → decode_with codec e x after body ≡ some value)
  encode_with-decode_with (some x) value body before u h =
      let (b, p, q) = bind_inv (x.encode value) _ (body, before) h in
      let same : b ≡ body = cc in
      let bare : [] ≡ before = cc in
      (sym (ap (lookup attribute_compression) bare), λ after k. u value body (p ∙ ap some same))
  encode_with-decode_with none value body before u h =
      let (b, p, q) = bind_inv (codec.encode_message e.encoding value) _ (body, before) h in
      let same : b ≡ body = cc in
      let tagged : (attribute_encoding, e.encoding) ∷ [] ≡ before = cc in
      (
        sym (ap (lookup attribute_compression) tagged),
        λ after k.
            let found : lookup attribute_encoding before ≡ some e.encoding =
              sym (ap (lookup attribute_encoding) tagged) in
            ap (λ o. codec.decode_message (or_encoding codec e o) body)
              (k (ap is_some found) ∙ found)
            ∙ laws.decodes e.encoding value body (p ∙ ap some same),
      )

  -- How the body is decompressed again, and what is found of the encoding.
  abbrev Decompresses : Bytes × Attributes → Bytes × Attributes → Type 0
  Decompresses encoded compressed =
      (decompress_from codec e (lookup attribute_compression compressed.1) compressed.0
        ≡ some encoded.0)
      × (lookup attribute_encoding compressed.1 ≡ lookup attribute_encoding encoded.1)

  compress_unless-Decompresses :
      (b : Bool) (encoded compressed : Bytes × Attributes)
      → lookup attribute_compression encoded.1 ≡ none
      → compress_unless codec e b encoded ≡ some compressed
      → Decompresses encoded compressed
  compress_unless-Decompresses true encoded compressed none_yet h =
      let same : encoded ≡ compressed = cc in
      subst (Decompresses encoded) same
        (ap (λ o. decompress_from codec e o encoded.0) none_yet, refl)
  compress_unless-Decompresses false (body, before) compressed none_yet h =
      let (z, p, q) = bind_inv (codec.compress_message e.compression body) _ compressed h in
      let packed : Bytes × Attributes =
        (codec.base64_encode z, assign attribute_compression e.compression before) in
      let same : packed ≡ compressed = cc in
      subst (Decompresses (body, before)) same (
        ap (λ o. decompress_from codec e o (codec.base64_encode z))
              (lookup-assign attribute_compression attribute_compression e.compression before)
            ∙ bind_some (codec.base64_decode (codec.base64_encode z))
                (codec.decompress_message e.compression) z (laws.unbase64 z)
            ∙ laws.decompresses e.compression body z p,
        lookup-assign attribute_encoding attribute_compression e.compression before,
      )

  read_back :
      (value : T) (sets : List Attributes) (body : Bytes) (before : Attributes)
      (compressed : Bytes × Attributes) (merged final : Attributes)
      → Undoes e.external_encoder
      → All Spares e.encode_handlers
      → All (λ set. lookup attribute_compression set ≡ none) sets
      → encode_body codec e value [] ≡ some (body, before)
      → compress_body codec e (body, before) ≡ some compressed
      → merge_attributes codec e compressed.1 sets ≡ some merged
      → handle_encode codec e e.encode_handlers value merged ≡ some final
      → (msg : Message) → some (record { attributes = final; body = compressed.0 }) ≡ some msg
      → (handled : Attributes)
      → handle_decode codec e e.encode_handlers value msg.attributes ≡ some handled
      → decode codec e msg ≡ some (value, handled)
  unfolding encode_body compress_body decode
  read_back value sets body before compressed merged final u s free p q r t msg made handled k =
      let (none_yet, reads) = encode_with-decode_with e.external_encoder value body before u p in
      let (unpacks, same_encoding) =
        compress_unless-Decompresses (e.compression == compression_none) (body, before) compressed
          none_yet q in
      let (he, hc) = handle_encode-lookup codec e e.encode_handlers value merged final s t in
      let mc =
        merge_attributes-lookup codec e attribute_compression sets compressed.1 merged r
          (inr free) in
      let me : (is_some (lookup attribute_encoding before) ≡ true)
          → lookup attribute_encoding final ≡ lookup attribute_encoding before =
        λ there.
          he
          ∙ merge_attributes-lookup codec e attribute_encoding sets compressed.1 merged r
              (inl (ap is_some same_encoding ∙ there))
          ∙ same_encoding in
      let made_of : record { attributes = final; body = compressed.0 } ≡ msg = cc in
      subst
        (λ m.
          handle_decode codec e e.encode_handlers value m.attributes ≡ some handled
          → decode codec e m ≡ some (value, handled))
        made_of
        (λ l.
          bind_some (decompress_body codec e final compressed.0) _ body
            (ap (λ o. decompress_from codec e o compressed.0) (hc ∙ mc) ∙ unpacks)
          ∙ bind_some (decode_body codec e final body) _ value (reads final me)
          ∙ bind_some (handle_decode codec e e.encode_handlers value final) _ handled l)
        k

  -- Decode gives back the data that Encode was given: with any compression and encoding, whose codecs
  -- undo what they do (CodecLaws), with an external encoder, if there is one, that decodes what it has
  -- encoded (Undoes), with handlers that leave the attributes encoding and compression as they are
  -- (Spares) and that decode, and with any attributes passed along of which none is named compression.
  pub encode-decode :
      (value : T) (sets : List Attributes) (msg : Message) (handled : Attributes)
      → Undoes e.external_encoder
      → All Spares e.encode_handlers
      → All (λ set. lookup attribute_compression set ≡ none) sets
      → encode codec e value sets ≡ some msg
      → handle_decode codec e e.encode_handlers value msg.attributes ≡ some handled
      → decode codec e msg ≡ some (value, handled)
  unfolding encode decode
  encode-decode value sets msg handled u s free h k =
      let ((body, before), p, h1) = bind_inv (encode_body codec e value []) _ msg h in
      let (compressed, q, h2) = bind_inv (compress_body codec e (body, before)) _ msg h1 in
      let (merged, r, h3) = bind_inv (merge_attributes codec e compressed.1 sets) _ msg h2 in
      let (final, t, h4) =
        bind_inv (handle_encode codec e e.encode_handlers value merged) _ msg h3 in
      read_back value sets body before compressed merged final u s free p q r t msg h4 handled k
