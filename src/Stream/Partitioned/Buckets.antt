-- ===== src/Stream/Partitioned/Buckets.antt =====
-- Which bucket a message goes to, in pkg/stream/producer_daemon_partitioned_aggregator.go, and which
-- keys the buckets have.
use native.Mathlib.Nat.{mul-le-mul_right, div-mul-le_self}
use gosoline.Prelude.{
  ℕ, zero, suc, ◌+◌, ◌-◌, ◌*◌, ◌/◌, ◌^◌, ◌≤◌, ◌<◌, ◌≡◌, refl, ap, Option, none, some, List, [], ◌∷◌,
  ◌++◌, arith, length, string_comparable,
}
use gosoline.Clock.Fake.{ℤ, pos, negsuc}
use gosoline.Stream.Message.{Message}
use gosoline.Stream.Partitioned.{
  Env, Inner, Partitioned, increment_step, hash_key, big_mod, get_explicit_hash_key, choose,
  write_at, write,
}

range_lem :
    (largest count bucket step : ℕ)
    → step * count ≤ largest
    → bucket < count
    → (bucket * step + step / 2 < largest + 1)
      × (bucket * step ≤ bucket * step + step / 2)
      × (bucket * step + step / 2 ≤ (bucket + 1) * step)
range_lem largest count bucket step p h =
    (omega (arith, mul-le-mul_right step h), omega arith, omega arith)

-- The hash keys from 0 to 2^128 - 1 are cut into ranges of one size, one for each bucket, and the key of
-- a bucket is a hash key that lies in its range.
hash_key_lem :
    (count bucket : ℕ)
    → bucket < count
    → (hash_key count bucket < 2 ^ 128)
      × (bucket * increment_step count ≤ hash_key count bucket)
      × (hash_key count bucket ≤ (bucket + 1) * increment_step count)
unfolding hash_key
hash_key_lem count bucket h =
    range_lem (2 ^ 128 - 1) count bucket (increment_step count)
      (div-mul-le_self (2 ^ 128 - 1) count) h

big_mod_lt : (key : ℤ) (count : ℕ) → 0 < count → big_mod key count < count
big_mod_lt (pos n) count h = omega arith
big_mod_lt (negsuc n) count h = omega arith

module _ {G A : Type 0} (env : Env G) (inner : Inner A)
    (intn_lt : (n : ℕ) (g : G) → 0 < n → (env.intn n g).0 < n) where
  choose_lt :
      (count : ℕ) (g : G) (key : Option ℤ) → 0 < count → (choose env inner count g key).0 < count
  choose_lt count g none h = intn_lt count g h
  choose_lt count g (some key) h = big_mod_lt key count h

  write_at_lem :
      (index : ℕ) (buckets : List A) (msg : Message)
      → index < length buckets
      → (before : List A) × (a : A) × (after : List A) × (buckets ≡ before ++ a ∷ after)
        × (length before ≡ index)
        × (write_at env inner index buckets msg
            ≡ some ((inner.write a msg).0, before ++ (inner.write a msg).1 ∷ after))
  unfolding write_at
  write_at_lem index [] msg h = absurd (omega arith)
  write_at_lem zero (a ∷ rest) msg h = ([], a, rest, refl, refl, refl)
  write_at_lem (suc index) (a ∷ rest) msg h =
      let (before, b, after, e, n, w) = write_at_lem index rest msg (omega arith) in
      (a ∷ before, b, after, ap (λ t. a ∷ t) e, ap suc n, rw w refl)

  -- With at least one bucket, Write never indexes out of range: it hands the message to exactly one
  -- bucket and leaves the others as they are. That bucket is given by the hash key alone, if the
  -- message has one, and else by the random number.
  pub write_reaches :
      (p : Partitioned G A) (msg : Message)
      → 0 < length p.buckets
      → let (index, g) =
          choose env inner (length p.buckets) p.rand (get_explicit_hash_key env inner msg) in
        (before : List A) × (a : A) × (after : List A) × (p.buckets ≡ before ++ a ∷ after)
        × (length before ≡ index)
        × (write env inner p msg
            ≡ some (
              (inner.write a msg).0,
              record { rand = g; buckets = before ++ (inner.write a msg).1 ∷ after },
            ))
  unfolding write
  write_reaches p msg h =
      let (index, g) =
        choose env inner (length p.buckets) p.rand (get_explicit_hash_key env inner msg) in
      let (before, a, after, e, n, w) =
        write_at_lem index p.buckets msg
          (choose_lt (length p.buckets) p.rand (get_explicit_hash_key env inner msg) h) in
      (before, a, after, e, n, rw w refl)
