-- ===== src/Stream/Message.antt =====
-- `Message` of pkg/stream/message.go: attributes and a body, here the bytes of it.
use Prim.Native.String.{String}
use gosoline.Prelude.{ℕ, List}

abbrev pub Bytes : Type 0
Bytes = List ℕ

abbrev pub Attributes : Type 0
Attributes = List (String × String)

pub record Message : Type 0 where
  pub attributes : Attributes
  pub body : Bytes
