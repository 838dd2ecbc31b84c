-- ===== src/Stream/Batcher/Limits.antt =====
-- How large the batches of pkg/stream/producer_daemon_batcher.go are.
use gosoline.Prelude.{
  ℕ, ◌+◌, ◌≤◌, ◌<◌, ◌≡◌, ◌≢◌, refl, List, [], ◌∷◌, ◌++◌, length, length-append, arith,
}
use gosoline.Stream.Batcher.{Batcher, RawJsonMessage, append_raw}

-- The bytes of a batch.
abbrev pub total : List RawJsonMessage → ℕ
total [] = 0
total (raw ∷ raws) = length raw.body + total raws

total-append : (xs ys : List RawJsonMessage) → total (xs ++ ys) ≡ total xs + total ys
total-append [] ys = omega arith
total-append (x ∷ xs) ys = omega (arith, total-append xs ys)

length-zero : (xs : List RawJsonMessage) → length xs < 1 → total xs ≡ 0
length-zero [] h = refl
length-zero (x ∷ xs) h = absurd (omega arith)

-- The size is that of the messages, and neither limit is reached.
pub record IsValid (b : Batcher) : Type 0 where
  pub sized : b.size ≡ total b.messages
  pub room : length b.messages < b.max_messages
  pub fits : b.max_bytes ≢ 0 → b.size < b.max_bytes

-- Append keeps the batcher valid, and its limits and encoding as they are.
append_raw-IsValid :
    (b : Batcher) (raw : RawJsonMessage)
    → IsValid b
    → IsValid (append_raw b raw).1
      × ((append_raw b raw).1.max_messages ≡ b.max_messages)
      × ((append_raw b raw).1.max_bytes ≡ b.max_bytes)
unfolding append_raw
append_raw-IsValid b raw h =
    ground (arith, length-append b.messages (raw ∷ []), total-append b.messages (raw ∷ []))

-- A batch that Append returns has at most as many messages as the limit; and if the new message is
-- smaller than the byte limit, the batch has at most as many bytes as the limit.
pub append_raw_limits :
    (b : Batcher) (raw : RawJsonMessage)
    → IsValid b
    → (length (append_raw b raw).0 ≤ b.max_messages)
      × (length raw.body < b.max_bytes → total (append_raw b raw).0 ≤ b.max_bytes)
unfolding append_raw
append_raw_limits b raw h = ground (
  arith,
  length-append b.messages (raw ∷ []),
  total-append b.messages (raw ∷ []),
  length-append b.messages [],
  total-append b.messages [],
  length-append (b.messages ++ raw ∷ []) [],
  length-zero b.messages,
)

-- A message of exactly the byte limit, which a batch of its own would hold, is put into one batch
-- with the messages that were waiting: the batch then has more bytes than the limit.
pub append_raw_exceeds :
    (b : Batcher) (raw : RawJsonMessage)
    → IsValid b
    → 0 < b.size
    → 0 < b.max_bytes
    → length raw.body ≡ b.max_bytes
    → b.max_bytes < total (append_raw b raw).0
unfolding append_raw
append_raw_exceeds b raw h p m q = ground (
  arith,
  length-append b.messages (raw ∷ []),
  total-append b.messages (raw ∷ []),
  length-append b.messages [],
  total-append b.messages [],
  length-append (b.messages ++ raw ∷ []) [],
  length-zero b.messages,
)
