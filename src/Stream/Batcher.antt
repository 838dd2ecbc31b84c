-- ===== src/Stream/Batcher.antt =====
-- `producerDaemonBatcher` of pkg/stream/producer_daemon_batcher.go. The sizes are of Go's type int
-- and not negative: the settings are validated. `marshal` is json.Marshal, and may fail.
pub mod Fifo
pub mod Limits
use gosoline.Prelude.{
  ℕ, ◌+◌, Bool, not, ◌&&◌, ◌||◌, Option, none, some, List, [], ◌∷◌, ◌++◌, leb, eqb, length,
  if◌then◌else◌,
}
use gosoline.Stream.Message.{Message, Attributes, Bytes}

-- rawJsonMessage
pub record RawJsonMessage : Type 0 where
  pub attributes : Attributes
  pub body : Bytes

pub record Batcher : Type 0 where
  pub max_messages : ℕ
  pub max_bytes : ℕ
  pub messages : List RawJsonMessage
  pub size : ℕ
  pub with_json_encoding : Bool

-- NewProducerDaemonBatcher and NewProducerDaemonBatcherWithoutJsonEncoding
unfoldable new_batcher : ℕ → ℕ → Bool → Batcher
new_batcher batch_size batch_max_size with_json_encoding = record {
  max_messages = batch_size;
  max_bytes = batch_max_size;
  messages = [];
  size = 0;
  with_json_encoding = with_json_encoding;
}

-- needsFlush: the size of the next message is `plus - minus`, which Append makes -1 when the body
-- is empty.
unfoldable pub needs_flush : Batcher → ℕ → ℕ → Bool
needs_flush b plus minus =
    leb b.max_messages (length b.messages)
    || (not (eqb b.max_bytes 0) && leb (b.max_bytes + minus) (b.size + plus))

unfoldable pub flush : Batcher → List RawJsonMessage × Batcher
flush b = (b.messages, record b { messages = []; size = 0 })

-- flushes if the test says so
unfoldable pub flush_if : Bool → Batcher → List RawJsonMessage × Batcher
unfolding flush
flush_if test b = if test then flush b else ([], b)

unfoldable pub add : Batcher → RawJsonMessage → Batcher
add b raw = record b { messages = b.messages ++ raw ∷ []; size = b.size + length raw.body }

-- Append, once the body is encoded
unfoldable pub append_raw : Batcher → RawJsonMessage → List RawJsonMessage × Batcher
unfolding flush_if add needs_flush
append_raw b raw =
    let (first, b₁) = flush_if (needs_flush b (length raw.body) 1) b in
    let b₂ = add b₁ raw in
    let (second, b₃) = flush_if (needs_flush b₂ 0 0) b₂ in (first ++ second, b₃)

module _ (marshal : Message → Option Bytes) where
  -- the message as it is kept: `none` if it can not be encoded
  unfoldable pub encode : Batcher → Message → Option RawJsonMessage
  encode b msg =
      if b.with_json_encoding
      then elim (marshal msg) [
        | none ↦ none
        | some body ↦ some (record { attributes = msg.attributes; body = body })
      ]
      else some (record { attributes = msg.attributes; body = msg.body })

  -- Append: an error changes nothing
  unfoldable pub append : Batcher → Message → Option (List RawJsonMessage) × Batcher
  unfolding encode append_raw
  append b msg = elim (encode b msg) [
    | none ↦ (none, b)
    | some raw ↦ let (result, b') = append_raw b raw in (some result, b')
  ]

-- The batches that a run of messages makes, in order, and what is left in the batcher.
unfoldable pub append_all : Batcher → List RawJsonMessage → List (List RawJsonMessage) × Batcher
unfolding append_raw
append_all b [] = ([], b)
append_all b (raw ∷ raws) =
    let (batch, b') = append_raw b raw in
    let (batches, b'') = append_all b' raws in (batch ∷ batches, b'')
