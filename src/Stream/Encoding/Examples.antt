-- ===== src/Stream/Encoding/Examples.antt =====
-- A run of the encoder of pkg/stream/message_encoding.go.
use gosoline.Prelude.{◌≡◌, refl, none, some, [], ◌∷◌}
use gosoline.Stream.Message.{Message, Bytes}
use gosoline.Stream.Encoding.{EncodeHandler, Codec, MessageEncoder, encode, handle_decode, decode}
use gosoline.Stream.Encoding.RoundTrip.{CodecLaws, encode-decode}

-- Encodings and compressions that leave the bytes as they are.
abbrev plain : Codec Bytes
plain = record {
  encode_message = λ n body. some body;
  decode_message = λ n body. some body;
  compress_message = λ n body. some body;
  decompress_message = λ n body. some body;
  base64_encode = λ body. body;
  base64_decode = λ body. some body;
}

plain_laws : CodecLaws plain
plain_laws = record {
  decodes = λ n value body h. cc;
  decompresses = λ n body z h. cc;
  unbase64 = λ body. refl;
}

-- A handler that adds an attribute, and takes it for granted.
abbrev nothing_to_do : EncodeHandler Bytes
nothing_to_do = record {
  encode = λ value attributes. some attributes;
  decode = λ value attributes. some attributes;
}

abbrev gzip : MessageEncoder Bytes
gzip = record {
  encoding = "application/json";
  compression = "application/gzip";
  encode_handlers = nothing_to_do ∷ [];
  external_encoder = none;
}

abbrev sent : Message
sent = record {
  attributes =
      ("encoding", "application/json") ∷ ("compression", "application/gzip") ∷ ("trace", "1") ∷ [];
  body = 1 ∷ 2 ∷ [];
}

encode-decode_example : decode plain gzip sent ≡ some (1 ∷ 2 ∷ [], sent.attributes)
unfolding encode handle_decode
encode-decode_example =
    encode-decode plain plain_laws gzip (1 ∷ 2 ∷ []) ((("trace", "1") ∷ []) ∷ []) sent
      sent.attributes tt ((λ value before after h. (cc, cc)), tt) (refl, tt) refl refl
