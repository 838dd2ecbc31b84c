-- ===== src/Stream/Partitioned.antt =====
-- `producerDaemonPartitionedAggregator` of pkg/stream/producer_daemon_partitioned_aggregator.go: one
-- aggregator for each range of hash keys of a Kinesis stream.
pub mod Buckets
use Prim.Native.String.{String}
use gosoline.Prelude.{
  ℕ, zero, suc, ◌+◌, ◌-◌, ◌*◌, ◌/◌, ◌%◌, ◌^◌, Option, none, some, List, [], ◌∷◌, ◌++◌, length,
  lookup, string_comparable,
}
use gosoline.Clock.Fake.{ℤ, pos, negsuc}
use gosoline.Stream.Message.{Message, Attributes}
use gosoline.Stream.Aggregator.{AggregateFlush}

abbrev explicit_hash_key_attribute : String
explicit_hash_key_attribute = "gosoline.kinesis.explicitHashKey"

abbrev pub partition_key_attribute : String
partition_key_attribute = "gosoline.kinesis.partitionKey"

-- What is used of others: the number that a decimal text is, and the text of a number; the MD5 sum as
-- a number; and the random number below n.
pub record Env (G : Type 0) : Type 0 where
  pub set_string : String → Option ℤ
  pub string_of : ℕ → String
  pub md5 : String → ℕ
  pub intn : ℕ → G → ℕ × G

-- ProducerDaemonAggregator: an error is none
pub record Inner (A : Type 0) : Type 0 where
  pub write : A → Message → Option (List AggregateFlush) × A
  pub flush : A → Option (List AggregateFlush) × A

pub record Partitioned (G A : Type 0) : Type 0 where
  pub rand : G
  pub buckets : List A

-- (2^128 - 1) / bucketCount
abbrev pub increment_step : ℕ → ℕ
increment_step count = (2 ^ 128 - 1) / count

-- the explicit hash key of a bucket
unfoldable pub hash_key : ℕ → ℕ → ℕ
hash_key count bucket = bucket * increment_step count + increment_step count / 2

-- big.Int.Mod, the remainder that is not negative
abbrev pub big_mod : ℤ → ℕ → ℕ
big_mod (pos n) m = n % m
big_mod (negsuc n) m = m - 1 - n % m

abbrev then_cons : {A : Type 0} → Option A → Option (List A) → Option (List A)
then_cons none rest = none
then_cons (some a) none = none
then_cons (some a) (some rest) = some (a ∷ rest)

module _ {G A : Type 0} (env : Env G) (inner : Inner A) where
  -- the loop of NewProducerDaemonPartitionedAggregatorWithInterfaces, over the buckets from `bucket`
  unfoldable create_buckets : (Attributes → Option A) → ℕ → ℕ → ℕ → Option (List A)
  unfolding hash_key
  create_buckets create count zero bucket = some []
  create_buckets create count (suc n) bucket =
      then_cons (create ((explicit_hash_key_attribute, env.string_of (hash_key count bucket)) ∷ []))
        (create_buckets create count n (bucket + 1))

  -- what getExplicitHashKeyForMessage finds; an invalid key is none, after a log message
  unfoldable pub get_explicit_hash_key : Message → Option ℤ
  get_explicit_hash_key msg = elim (lookup explicit_hash_key_attribute msg.attributes) [
    | some text ↦ env.set_string text
    | none ↦ elim (lookup partition_key_attribute msg.attributes) [
      | some key ↦ some (pos (env.md5 key))
      | none ↦ none
    ]
  ]

  abbrev pub choose : ℕ → G → Option ℤ → ℕ × G
  choose count g none = env.intn count g
  choose count g (some key) = (big_mod key count, g)

  -- a.buckets[bucketIndex].aggregator.Write: none where the index is out of range and Go panics
  unfoldable pub write_at : ℕ → List A → Message → Option (Option (List AggregateFlush) × List A)
  write_at index [] msg = none
  write_at zero (a ∷ rest) msg = let (flushes, b) = inner.write a msg in some (flushes, b ∷ rest)
  write_at (suc index) (a ∷ rest) msg = elim (write_at index rest msg) [
    | none ↦ none
    | some (flushes, rest') ↦ some (flushes, a ∷ rest')
  ]

  abbrev with_buckets :
      G
      → Option (Option (List AggregateFlush) × List A)
      → Option (Option (List AggregateFlush) × Partitioned G A)
  with_buckets g none = none
  with_buckets g (some (flushes, buckets)) = some (flushes, record { rand = g; buckets = buckets })

  -- Write
  unfoldable pub write :
      Partitioned G A → Message → Option (Option (List AggregateFlush) × Partitioned G A)
  unfolding get_explicit_hash_key write_at
  write p msg =
      let (index, g) = choose (length p.buckets) p.rand (get_explicit_hash_key msg) in
      with_buckets g (write_at index p.buckets msg)

  -- Flush, which ends at the first error
  unfoldable flush_buckets : List A → List AggregateFlush → Option (List AggregateFlush) × List A
  flush_buckets [] result = (some result, [])
  flush_buckets (a ∷ rest) result =
      let (flushed, b) = inner.flush a in
      elim flushed [
        | none ↦ (none, b ∷ rest)
        | some flushes ↦
            let (all, rest') = flush_buckets rest (result ++ flushes) in (all, b ∷ rest')
      ]

  unfoldable pub flush : Partitioned G A → Option (List AggregateFlush) × Partitioned G A
  unfolding flush_buckets
  flush p = let (all, buckets) = flush_buckets p.buckets [] in (all, record p { buckets = buckets })
