-- ===== src/Stream/Aggregator/Arrays.antt =====
-- What the aggregator of pkg/stream/producer_daemon_aggregator.go holds, as a JSON array.
use mathlib.Core.List.{append_assoc}
use mathlib.Core.Path.{subst}
use gosoline.Prelude.{
  ℕ, zero, suc, ◌≡◌, refl, sym, ap, ◌∙◌, Bool, true, false, List, [], ◌∷◌, ◌++◌, length,
  length-append, arith, ltb, if◌then◌else◌,
}
use gosoline.Stream.Message.{Bytes}
use gosoline.Stream.Aggregator.{
  Env, Aggregator, AggregateFlush, CompressionType, json_array_start, json_array_sep,
  json_array_end, emit, reset, write_encoded, aggregate, learn, flush,
}

-- The elements of an array, with the separators.
abbrev pub join : List Bytes → Bytes
join [] = []
join (x ∷ []) = x
join (x ∷ y ∷ rest) = x ++ (json_array_sep ++ join (y ∷ rest))

-- The array, as text.
abbrev json_array : List Bytes → Bytes
json_array xs = json_array_start ++ (join xs ++ json_array_end)

-- What is written for one more element.
abbrev separated : ℕ → Bytes → Bytes
separated zero x = x
separated (suc n) x = json_array_sep ++ x

join-append :
    (xs : List Bytes) (x : Bytes) → join (xs ++ x ∷ []) ≡ join xs ++ separated (length xs) x
join-append [] x = refl
join-append (y ∷ []) x = refl
join-append (y ∷ z ∷ rest) x =
    ap (λ (t : Bytes). y ++ (json_array_sep ++ t)) (join-append (z ∷ rest) x)
    ∙ ap (λ (t : Bytes). y ++ t)
        (sym (append_assoc json_array_sep (join (z ∷ rest)) (json_array_sep ++ x)))
    ∙ sym (append_assoc y (json_array_sep ++ join (z ∷ rest)) (json_array_sep ++ x))

module _ {W R : Type 0} (env : Env W R) where
  -- What the writer and the encodings promise: what was written can be read back.
  pub record EnvLaws : Type 1 where
    pub Wrote : CompressionType → W → Bytes → Bytes → Type 0
    pub inflate : CompressionType → Bytes → Bytes
    pub unbase64 : Bytes → Bytes
    pub wrote_nothing : (c : CompressionType) → Wrote c (env.new_writer c) [] []
    pub wrote_more :
        (c : CompressionType) (w : W) (buffer plain bytes : Bytes)
        → Wrote c w buffer plain
        → Wrote c (env.write w bytes).1 (buffer ++ (env.write w bytes).0) (plain ++ bytes)
    pub inflate_closed :
        (c : CompressionType) (w : W) (buffer plain : Bytes)
        → Wrote c w buffer plain
        → inflate c (buffer ++ env.close w) ≡ plain
    pub unbase64_base64 : (bytes : Bytes) → unbase64 (env.base64 bytes) ≡ bytes

module _ {W R : Type 0} (env : Env W R) (laws : EnvLaws env) (compression : CompressionType)
    (encode_base64 : Bool) where
  open laws use {Wrote, inflate, unbase64}

  -- The aggregator holds these encoded messages, and no others.
  pub record Holds (a : Aggregator W R) (pending : List Bytes) : Type 0 where
    pub wrote : Wrote compression a.writer a.buffer (json_array_start ++ join pending)
    pub counted : a.message_count ≡ length pending
    pub compressed : a.compression ≡ compression
    pub encoded : a.encode_base64 ≡ encode_base64

  -- What a consumer reads from the body of an aggregate.
  abbrev plain : AggregateFlush → Bytes
  plain f = inflate compression (if encode_base64 then unbase64 f.body else f.body)

  -- The aggregate is the JSON array of these messages, and says how many they are.
  abbrev IsArrayOf : AggregateFlush → List Bytes → Type 0
  IsArrayOf f group = (plain f ≡ json_array group) × (f.message_count ≡ length group)

  abbrev pub AreArraysOf : List AggregateFlush → List (List Bytes) → Type 0
  AreArraysOf [] [] = Unit
  AreArraysOf (f ∷ fs) (g ∷ gs) = IsArrayOf f g × AreArraysOf fs gs
  AreArraysOf _ _ = ⊥

  pub Holds-write_encoded :
      (a : Aggregator W R) (pending : List Bytes) (x : Bytes)
      → Holds a pending
      → Holds (write_encoded env a x) (pending ++ x ∷ [])
  unfolding write_encoded emit
  Holds-write_encoded a [] x h =
      let first : ltb 0 a.message_count ≡ false = ground arith in
      rw first (record {
        wrote = laws.wrote_more compression a.writer a.buffer json_array_start x h.wrote;
        counted = ground arith;
        compressed = h.compressed;
        encoded = h.encoded;
      })
  Holds-write_encoded a (p ∷ ps) x h =
      let more : ltb 0 a.message_count ≡ true = ground arith in
      let w = a.writer in
      let both : json_array_start ++ join (p ∷ ps) ++ json_array_sep ++ x
          ≡ json_array_start ++ join ((p ∷ ps) ++ x ∷ []) =
        append_assoc (json_array_start ++ join (p ∷ ps)) json_array_sep x
        ∙ append_assoc json_array_start (join (p ∷ ps)) (json_array_sep ++ x)
        ∙ ap (λ (t : Bytes). json_array_start ++ t) (sym (join-append (p ∷ ps) x)) in
      rw more (record {
        wrote =
            subst
              (λ t.
                Wrote compression (env.write (env.write w json_array_sep).1 x).1
                  (a.buffer
                    ++ (env.write w json_array_sep).0
                    ++ (env.write (env.write w json_array_sep).1 x).0)
                  t)
              both
              (laws.wrote_more compression (env.write w json_array_sep).1 _ _ x
                (laws.wrote_more compression w a.buffer _ json_array_sep h.wrote));
        counted = omega (arith, h.counted, length-append ps (x ∷ []));
        compressed = h.compressed;
        encoded = h.encoded;
      })

  pub Holds-reset :
      (a : Aggregator W R)
      → a.compression ≡ compression
      → a.encode_base64 ≡ encode_base64
      → Holds (reset env a) []
  unfolding reset emit
  Holds-reset a c e = record {
    wrote = rw c (
        laws.wrote_more compression (env.new_writer compression) [] [] json_array_start
          (laws.wrote_nothing compression));
    counted = refl;
    compressed = c;
    encoded = e;
  }

  learn_keeps :
      (f : AggregateFlush) (a : Aggregator W R)
      → ((learn env f a).compression ≡ a.compression)
        × ((learn env f a).encode_base64 ≡ a.encode_base64)
  unfolding learn
  learn_keeps f a = ground arith

  decode-encode :
      (b : Bool) (bytes : Bytes)
      → (if b
          then unbase64 (if b then env.base64 bytes else bytes)
          else if b
          then env.base64 bytes
          else bytes)
        ≡ bytes
  decode-encode true bytes = laws.unbase64_base64 bytes
  decode-encode false bytes = refl

  aggregate_lem :
      (a : Aggregator W R) (pending : List Bytes)
      → Holds a pending
      → IsArrayOf (aggregate env (emit env a json_array_end)) pending
  unfolding aggregate emit
  aggregate_lem a pending h = (
    rw h.encoded (
        ap (inflate compression) (decode-encode encode_base64 _)
        ∙ laws.inflate_closed compression (env.write a.writer json_array_end).1 _ _
            (laws.wrote_more compression a.writer a.buffer _ json_array_end h.wrote)
        ∙ append_assoc json_array_start (join pending) json_array_end),
    h.counted,
  )

  -- A flush gives the array of what was held, and leaves an empty array.
  pub flush_lem :
      (a : Aggregator W R) (pending : List Bytes)
      → Holds a pending
      → AreArraysOf (flush env a).0 (pending ∷ []) × Holds (flush env a).1 []
  unfolding flush emit
  flush_lem a pending h = (
    (aggregate_lem a pending h, tt),
    Holds-reset (learn env (aggregate env (emit env a json_array_end)) (emit env a json_array_end))
        (kept.0 ∙ h.compressed) (kept.1 ∙ h.encoded),
  )
    where
      kept :
          ((learn env
              (aggregate env (emit env a json_array_end))
              (emit env a json_array_end)).compression
            ≡ a.compression)
          × ((learn env
                (aggregate env (emit env a json_array_end))
                (emit env a json_array_end)).encode_base64
              ≡ a.encode_base64)
      kept = learn_keeps (aggregate env (emit env a json_array_end)) (emit env a json_array_end)
