-- ===== src/Kvstore/Batching/Reads.antt =====
-- What `getBatch` of pkg/kvstore/batch.go reads, for a store that reads its chunks well.
use Prim.Native.String.{String}
use mathlib.Core.Bool.{false≢true}
use gosoline.Prelude.{
  ℕ, ◌<◌, ◌≡◌, refl, sym, ap, ◌∙◌, ◌⊎◌, inl, inr, true, ◌||◌, Option, none, some, List, [], ◌∷◌,
  ◌++◌, arith, Bool-cases, Option-cases, is_some, elem, lookup, assign, lookup-assign, concat,
  Comparable, ◌==◌, string_comparable, elem-append, beq_eq, beq_refl,
}
use gosoline.Kvstore.Store.{Batch, Error, failed}
use gosoline.Kvstore.Batching.{key_chunks, uniq_keys, effective_size, get_chunks, get_batch}
use gosoline.Kvstore.Batching.Chunks.{key_chunks_lem}
use gosoline.Kvstore.Batching.Uniq.{texts, texts_all, uniq_keys_lem}

module _ {S K V : Type 0} ⦃e : Comparable K⦄ (view : S → K → Option V) where
  -- A read of the keys `asked` from the store `s` into the map `m`, of which `before` were missing
  -- already: the map gains entries of the store and loses none, the store gains none, and each key
  -- is read or missing.
  pub record Reads (s : S) (m : List (K × V)) (before asked : List K) (r : Batch S K V)
      : Type 0 where
    pub sound :
        (j : K) (v : V) → lookup j r.values ≡ some v → (lookup j m ≡ some v) ⊎ (view s j ≡ some v)
    pub keeps : (j : K) → is_some (lookup j m) ≡ true → is_some (lookup j r.values) ≡ true
    pub frame : (j : K) (v : V) → view r.store j ≡ some v → view s j ≡ some v
    pub complete :
        (j : K)
        → r.err ≡ none
        → (elem j before || elem j asked) ≡ true
        → (elem j r.missing || is_some (lookup j r.values)) ≡ true

  -- Nothing is left to read.
  pub Reads-nothing :
      (s : S) (m : List (K × V)) (before : List K)
      → Reads s m before [] (record { missing = before; values = m; err = none; store = s })
  Reads-nothing s m before = record {
    sound = λ j v h. inl h;
    keeps = λ j h. h;
    frame = λ j v h. h;
    complete = λ j q h. ground arith;
  }

  -- The read fails, with what was read so far.
  pub Reads-failed :
      (s t : S) (m : List (K × V)) (before asked missing : List K) (x : Error)
      → ((j : K) (v : V) → view t j ≡ some v → view s j ≡ some v)
      → Reads s m before asked (record { missing = missing; values = m; err = some x; store = t })
  Reads-failed s t m before asked missing x frame = record {
    sound = λ j v h. inl h;
    keeps = λ j h. h;
    frame = frame;
    complete = λ j q h. ground arith;
  }

  -- The first key is missing.
  pub Reads-missed :
      (s t : S) (m : List (K × V)) (before : List K) (k : K) (ks : List K) (r : Batch S K V)
      → ((j : K) (v : V) → view t j ≡ some v → view s j ≡ some v)
      → Reads t m (before ++ k ∷ []) ks r
      → Reads s m before (k ∷ ks) r
  Reads-missed s t m before k ks r frame later = record {
    sound = λ j v h. elim (later.sound j v h) [ inl old ↦ inl old | inr new ↦ inr (frame j v new) ];
    keeps = later.keeps;
    frame = λ j v h. frame j v (later.frame j v h);
    complete = λ j q h. later.complete j q (ground (arith, elem-append j before (k ∷ [])));
  }

  -- The first key is read.
  pub Reads-read :
      (s t : S) (m : List (K × V)) (before : List K) (k : K) (w : V) (ks : List K) (r : Batch S K V)
      → ((j : K) (v : V) → view t j ≡ some v → view s j ≡ some v)
      → view s k ≡ some w
      → Reads t (assign k w m) before ks r
      → Reads s m before (k ∷ ks) r
  Reads-read s t m before k w ks r frame found later = record {
    sound = λ j v h. elim (later.sound j v h) [
      | inr new ↦ inr (frame j v new)
      | inl old ↦ elim (Bool-cases (k == j)) [
        | inl same ↦ inr (
            sym (ap (view s) (beq_eq k j same))
            ∙ found
            ∙ (rw same at (sym (lookup-assign j k w m) ∙ old)))
        | inr other ↦ inl (rw other at (sym (lookup-assign j k w m) ∙ old))
      ]
    ];
    keeps = λ j h. later.keeps j (rw (lookup-assign j k w m) (ground arith));
    frame = λ j v h. frame j v (later.frame j v h);
    complete = λ j q h. ground (arith, later.complete j q, later.keeps j, lookup-assign j k w m);
  }

  module _ (get_chunk : S → List (K × V) → List K → Batch S K V)
      (reads : (s : S) (m : List (K × V)) (ks : List K) → Reads s m [] ks (get_chunk s m ks)) where
    get_chunks-Reads :
        (all : List K) (chunks : List (List K)) (missing : List K) (m : List (K × V)) (s : S)
        → Reads s m missing (concat chunks) (get_chunks get_chunk all chunks missing m s)
    unfolding get_chunks
    get_chunks-Reads all [] missing m s = Reads-nothing s m missing
    get_chunks-Reads all (chunk ∷ chunks) missing m s =
        let r = get_chunk s m chunk in
        let now = reads s m chunk in
        let later = get_chunks-Reads all chunks (missing ++ r.missing) r.values r.store in
        elim (Option-cases r.err) [
          | inr (x, bad) ↦
              rw (bad, get_chunks)
                (record {
                  sound = now.sound;
                  keeps = now.keeps;
                  frame = now.frame;
                  complete = λ j q h. ground arith;
                })
          | inl fine ↦
              rw (fine, get_chunks)
                (record {
                  sound = λ j v h. elim (later.sound j v h) [
                    | inl old ↦ now.sound j v old
                    | inr new ↦ inr (now.frame j v new)
                  ];
                  keeps = λ j h. later.keeps j (now.keeps j h);
                  frame = λ j v h. now.frame j v (later.frame j v h);
                  complete = λ j q h. ground (
                    arith,
                    elem-append j missing r.missing,
                    elem-append j chunk (concat chunks),
                    now.complete j fine,
                    later.complete j q,
                    later.keeps j,
                  );
                })
        ]

module _ {K : Type 0} ⦃e : Comparable K⦄ (cast : K → Option String)
    (cast_injective : (k j : K) (t : String) → cast k ≡ some t → cast j ≡ some t → k ≡ j) where
  elem-texts :
      (k : K) (t : String) (ks : List K)
      → cast k ≡ some t
      → elem k ks ≡ true
      → elem t (texts cast ks) ≡ true
  elem-texts k t [] c h = absurd (false≢true h)
  elem-texts k t (j ∷ ks) c h = elim (Bool-cases (j == k)) [
    | inl same ↦ rw (beq_eq j k same, c, texts, beq_refl t) refl
    | inr other ↦
        let rest = elem-texts k t ks c (rw other at h) in
        elim (Option-cases (cast j)) [
          | inl bad ↦ rw (bad, texts) rest
          | inr (u, good) ↦ rw (good, texts, rest) (ground arith)
        ]
  ]

  texts-elem :
      (k : K) (t : String) (ks : List K)
      → cast k ≡ some t
      → elem t (texts cast ks) ≡ true
      → elem k ks ≡ true
  texts-elem k t [] c h = absurd (false≢true h)
  texts-elem k t (j ∷ ks) c h = elim (Option-cases (cast j)) [
    | inl bad ↦ rw (texts-elem k t ks c (rw (bad, texts) at h)) (ground arith)
    | inr (u, good) ↦ elim (Bool-cases (u == t)) [
      | inl same ↦ rw (cast_injective j k t (good ∙ ap some (beq_eq u t same)) c, beq_refl k) refl
      | inr other ↦ rw (texts-elem k t ks c (rw (good, texts, other) at h)) (ground arith)
    ]
  ]

  texts_all-elem :
      (k : K) (ks : List K) → texts_all cast ks ≡ true → elem k ks ≡ true → is_some (cast k) ≡ true
  texts_all-elem k [] h m = absurd (false≢true m)
  texts_all-elem k (j ∷ ks) h m = elim (Bool-cases (j == k)) [
    | inl same ↦ rw (← beq_eq j k same) (ground arith)
    | inr other ↦ texts_all-elem k ks (ground arith) (rw other at m)
  ]

  -- UniqKeys keeps each key: one that it drops has the text of another, and is that one.
  elem-uniq_keys :
      (k : K) (ks us : List K) → uniq_keys cast ks ≡ some us → elem k ks ≡ true → elem k us ≡ true
  elem-uniq_keys k ks us h m =
      let (total, kept) = uniq_keys_lem cast ks in
      let has_text : is_some (cast k) ≡ true = texts_all-elem k ks (sym total ∙ rw h refl) m in
      elim (Option-cases (cast k)) [
        | inl bad ↦ absurd (false≢true (rw bad at has_text))
        | inr (t, good) ↦ texts-elem k t us good ((kept us h).0 t ∙ elem-texts k t ks good m)
      ]

  effective_size-positive : (n : ℕ) → 0 < effective_size n
  effective_size-positive n = ground arith

  -- GetBatch of a store whose chunks are read well reads well, whatever the size of the chunks is, and
  -- although keys that are asked for twice are read once.
  pub get_batch-Reads :
      {S V : Type 0} (view : S → K → Option V) (get_chunk : S → List (K × V) → List K → Batch S K V)
      → ((s : S) (m : List (K × V)) (ks : List K) → Reads view s m [] ks (get_chunk s m ks))
      → (batch_size : ℕ) (s : S) (ks : List K) (m : List (K × V))
      → Reads view s m [] ks (get_batch get_chunk cast batch_size s ks m)
  unfolding get_batch
  get_batch-Reads view get_chunk reads batch_size s ks m = elim (Option-cases (uniq_keys cast ks)) [
    | inl bad ↦ rw (bad, get_batch) (Reads-failed view s s m [] ks [] failed (λ j v h. h))
    | inr (us, good) ↦
        let size = effective_size batch_size in
        let (cut, cuts) = key_chunks_lem us size (effective_size-positive batch_size) in
        let r = get_chunks-Reads view get_chunk reads us (key_chunks us size) [] m s in
        rw (good, get_batch)
          (record {
            sound = r.sound;
            keeps = r.keeps;
            frame = r.frame;
            complete =
                λ j q h. r.complete j q (ap (λ c. elem j c) cut ∙ elem-uniq_keys j ks us good h);
          })
  ]
