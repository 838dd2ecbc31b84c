-- ===== src/Stream/Aggregator/Lossless.antt =====
-- That the aggregator of pkg/stream/producer_daemon_aggregator.go loses no message.
use mathlib.Core.List.{append_assoc, append-nil}
use mathlib.Core.Path.{subst}
use gosoline.Prelude.{
  ℕ, ◌≡◌, refl, sym, ap, ◌∙◌, Bool, true, false, List, [], ◌∷◌, ◌++◌, concat, concat-append, length,
}
use gosoline.Stream.Message.{Attributes, Bytes}
use gosoline.Stream.Aggregator.{
  Env, Aggregator, AggregateFlush, CompressionType, is_gzip, configured, new_aggregator,
  write_encoded, flush_if, is_full, is_full_with, write_bytes, write_all,
}
use gosoline.Stream.Aggregator.Arrays.{EnvLaws}
use gosoline.Stream.Aggregator.Arrays

module _ {W R : Type 0} (env : Env W R) (laws : EnvLaws env) (compression : CompressionType)
    (encode_base64 : Bool) where
  abbrev Holds : Aggregator W R → List Bytes → Type 0
  Holds = Arrays.Holds env laws compression encode_base64

  abbrev pub AreArraysOf : List AggregateFlush → List (List Bytes) → Type 0
  AreArraysOf = Arrays.AreArraysOf env laws compression encode_base64

  AreArraysOf-append :
      (fs gs : List AggregateFlush) (xs ys : List (List Bytes))
      → AreArraysOf fs xs
      → AreArraysOf gs ys
      → AreArraysOf (fs ++ gs) (xs ++ ys)
  AreArraysOf-append [] gs [] ys h k = k
  AreArraysOf-append [] gs (x ∷ xs) ys h k = absurd h
  AreArraysOf-append (f ∷ fs) gs [] ys h k = absurd h
  AreArraysOf-append (f ∷ fs) gs (x ∷ xs) ys h k = (h.0, AreArraysOf-append fs gs xs ys h.1 k)

  -- The messages of a stream are in these aggregates, in order, and then in the aggregator.
  abbrev Packed : List Bytes → List AggregateFlush → Aggregator W R → Type 0
  Packed stream flushes a =
      (groups : List (List Bytes)) × (pending : List Bytes) × AreArraysOf flushes groups
      × (concat groups ++ pending ≡ stream)
      × Holds a pending

  pub flush_if-Packed :
      (test : Bool) (a : Aggregator W R) (pending : List Bytes)
      → Holds a pending
      → Packed pending (flush_if env test a).0 (flush_if env test a).1
  unfolding flush_if
  flush_if-Packed true a pending h =
      let (arrays, empty) = Arrays.flush_lem env laws compression encode_base64 a pending h in
      (pending ∷ [], [], arrays, append-nil (pending ++ []) ∙ append-nil pending, empty)
  flush_if-Packed false a pending h = ([], pending, tt, refl, h)

  -- First some aggregates, then some more.
  Packed-append :
      (stream : List Bytes) (x : List Bytes) (fs gs : List AggregateFlush) (b : Aggregator W R)
      → (groups : List (List Bytes)) (pending : List Bytes) → AreArraysOf fs groups
      → concat groups ++ pending ≡ stream
      → Packed (pending ++ x) gs b
      → Packed (stream ++ x) (fs ++ gs) b
  Packed-append stream x fs gs b groups pending h e (more, left, k, e', rest) =
      (groups ++ more, left, AreArraysOf-append fs gs groups more h k, all, rest)
    where
      all : concat (groups ++ more) ++ left ≡ stream ++ x
      all =
          ap (λ t. t ++ left) (concat-append groups more)
          ∙ append_assoc (concat groups) (concat more) left
          ∙ ap (λ t. concat groups ++ t) e'
          ∙ sym (append_assoc (concat groups) pending x)
          ∙ ap (λ t. t ++ x) e

  pub write_bytes-Packed :
      (a : Aggregator W R) (pending : List Bytes) (x : Bytes)
      → Holds a pending
      → Packed (pending ++ x ∷ []) (write_bytes env a x).0 (write_bytes env a x).1
  unfolding write_bytes
  write_bytes-Packed a pending x h =
      let f =
        flush_if env (is_full_with env a (env.scale (length x) a.expected_compression_ratio)) a in
      let (groups, left, arrays, e, held) =
        flush_if-Packed (is_full_with env a (env.scale (length x) a.expected_compression_ratio)) a
          pending h in
      let c = write_encoded env f.1 x in
      Packed-append pending (x ∷ []) f.0 (flush_if env (is_full env c) c).0
        (flush_if env (is_full env c) c).1 groups left arrays e
        (flush_if-Packed (is_full env c) c (left ++ x ∷ [])
          (Arrays.Holds-write_encoded env laws compression encode_base64 f.1 left x held))

  write_all-Packed :
      (xs : List Bytes) (a : Aggregator W R) (pending : List Bytes)
      → Holds a pending
      → Packed (pending ++ xs) (write_all env a xs).0 (write_all env a xs).1
  unfolding write_all
  write_all-Packed [] a pending h = ([], pending, tt, sym (append-nil pending), h)
  write_all-Packed (x ∷ xs) a pending h =
      let (groups, left, arrays, e, held) = write_bytes-Packed a pending x h in
      subst (λ t. Packed t (write_all env a (x ∷ xs)).0 (write_all env a (x ∷ xs)).1)
        (append_assoc pending (x ∷ []) xs)
        (Packed-append (pending ++ x ∷ []) xs (write_bytes env a x).0
          (write_all env (write_bytes env a x).1 xs).0 (write_all env (write_bytes env a x).1 xs).1
          groups left arrays e (write_all-Packed xs (write_bytes env a x).1 left held))

module _ {W R : Type 0} (env : Env W R) (laws : EnvLaws env) where
  -- From a new aggregator, whatever the limits and the attributes: the aggregates of any run of
  -- encoded messages decode to JSON arrays, each with the count that it claims; the elements of the
  -- arrays in order, then what the aggregator still holds, are the messages of the run in order.
  pub write_all_lossless :
      (max_messages max_bytes : ℕ) (compression : CompressionType) (attributes : Attributes)
      → (xs : List Bytes)
      → let start = new_aggregator env max_messages max_bytes compression attributes in
        let (flushes, a) = write_all env start xs in
        (groups : List (List Bytes)) × (pending : List Bytes) × Arrays.AreArraysOf env laws
          compression
          (is_gzip env compression)
          flushes
          groups
        × (concat groups ++ pending ≡ xs)
        × Arrays.Holds env laws compression (is_gzip env compression) a pending
  unfolding new_aggregator configured
  write_all_lossless max_messages max_bytes compression attributes xs =
      write_all-Packed env laws compression (is_gzip env compression) xs
        (new_aggregator env max_messages max_bytes compression attributes) []
        (Arrays.Holds-reset env laws compression (is_gzip env compression)
          (configured env max_messages max_bytes compression attributes) refl refl)
