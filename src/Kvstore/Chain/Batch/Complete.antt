-- ===== src/Kvstore/Chain/Batch/Complete.antt =====
-- That `GetBatch` of pkg/kvstore/chain.go accounts for every key that is asked for, and when it
-- does not.
use Prim.Native.String.{String}
use gosoline.Prelude.{
  ℕ, ◌≡◌, refl, ◌∙◌, ◌⊎◌, inl, inr, true, false, Option, none, some, List, [], ◌∷◌, arith,
  Bool-cases, Option-cases, Comparable, elem, elem-append, elem-keys, lookup, keys, is_some,
}
use gosoline.Kvstore.Store.{KvStore, Laws, Batch, failed}
use gosoline.Kvstore.Batching.{uniq_keys}
use gosoline.Kvstore.Batching
use gosoline.Kvstore.Batching.Uniq.{texts_all, uniq_keys_lem}
use gosoline.Kvstore.Chain.{Chain}
use gosoline.Kvstore.Chain.Batch.{
  Fetch, is_empty, after_fetch, remaining_of, fetch, finish_get_batch, get_batch,
}

elem-is_empty :
    {K : Type 0} ⦃e : Comparable K⦄ (k : K) (ks : List K) → is_empty ks ≡ true → elem k ks ≡ false
elem-is_empty k [] h = refl
elem-is_empty k (x ∷ xs) h = cc

module _ {S K V : Type 0} ⦃e : Comparable K⦄ (ops : KvStore S K V) (laws : Laws ops)
    (zero_value : V) where
  -- A key that is noted as missing, or has a value.
  abbrev pub Accounted : List K → List (K × V) → K → Type 0
  Accounted missing m k = (elem k missing ≡ true) ⊎ (is_some (lookup k m) ≡ true)

  -- The rounds of the loop lose no key.
  fetch_keeps :
      (layers : List S) (ks : List K) (m : List (K × V)) (k : K)
      → (fetch ops zero_value layers ks m).err ≡ none
      → is_some (lookup k m) ≡ true
      → is_some (lookup k (fetch ops zero_value layers ks m).values) ≡ true
  unfolding fetch after_fetch
  fetch_keeps [] ks m k fine h = h
  fetch_keeps (s ∷ rest) ks m k fine h = ground (
    arith,
    laws.get_batch_keeps s ks m k,
    fetch_keeps rest (remaining_of (ops.get_batch s ks m) ks) (ops.get_batch s ks m).values k,
  )

  remaining_accounts :
      (s : S) (ks : List K) (m : List (K × V)) (k : K)
      → elem k ks ≡ true
      → Accounted (remaining_of (ops.get_batch s ks m) ks) (ops.get_batch s ks m).values k
  remaining_accounts s ks m k h = elim (Option-cases (ops.get_batch s ks m).err) [
    | inl fine ↦ rw fine (laws.get_batch_complete s ks m k fine h)
    | inr (x, bad) ↦ rw bad (inl h)
  ]

  after_fetch_accounts :
      (r : Batch S K V) (remaining : List K) (rest : List S) (later : Fetch S K V) (k : K)
      → (after_fetch r remaining rest later).err ≡ none
      → Accounted remaining r.values k
      → (later.err ≡ none → Accounted later.todo later.values k)
      → Accounted
          (after_fetch r remaining rest later).todo
          (after_fetch r remaining rest later).values
          k
  unfolding after_fetch
  after_fetch_accounts r remaining rest later k fine now more = ground arith

  fetch_accounts :
      (layers : List S) (ks : List K) (m : List (K × V)) (k : K)
      → (fetch ops zero_value layers ks m).err ≡ none
      → elem k ks ≡ true
      → Accounted
          (fetch ops zero_value layers ks m).todo
          (fetch ops zero_value layers ks m).values
          k
  unfolding fetch after_fetch
  fetch_accounts [] ks m k fine h = inl h
  fetch_accounts (s ∷ rest) ks m k fine h =
      let r = ops.get_batch s ks m in
      let remaining = remaining_of r ks in
      after_fetch_accounts r remaining rest (fetch ops zero_value rest remaining r.values) k fine
        (remaining_accounts s ks m k h)
        λ quiet. elim (remaining_accounts s ks m k h) [
          | inl lacked ↦ fetch_accounts rest remaining r.values k quiet lacked
          | inr found ↦ inr (fetch_keeps rest remaining r.values k quiet found)
        ]

  finish_get_batch_accounts :
      (s : S) (n : ℕ) (cached : List K) (f : Fetch S K V) (k : K)
      → (finish_get_batch ops zero_value s n cached f).err ≡ none
      → (f.err ≡ none → Accounted f.todo f.values k) ⊎ (elem k cached ≡ true)
      → Accounted
          (finish_get_batch ops zero_value s n cached f).missing
          (finish_get_batch ops zero_value s n cached f).values
          k
  unfolding finish_get_batch
  finish_get_batch_accounts s n cached f k fine h = elim (Option-cases f.err) [
    | inr (x, bad) ↦ absurd (ground arith)
    | inl quiet ↦ rw quiet (ground (arith, elem-append k f.todo cached))
  ]

  -- GetBatch accounts for every key that is asked for, if it returns no error and the missing cache
  -- answers without one: the key is in the list of missing keys, or the result has a value at it.
  pub get_batch_complete :
      (c : Chain S) (ks : List K) (m : List (K × V)) (k : K)
      → (ops.get_batch c.missing_cache ks []).err ≡ none
      → (get_batch ops zero_value c ks m).err ≡ none
      → elem k ks ≡ true
      → Accounted
          (get_batch ops zero_value c ks m).missing
          (get_batch ops zero_value c ks m).values
          k
  unfolding get_batch
  get_batch_complete c ks m k quiet fine h =
      elim (Bool-cases (is_empty (ops.get_batch c.missing_cache ks []).missing)) [
        | inl all ↦ rw all (elim known [
          | inl left_over ↦ absurd (cc (elem-is_empty k r.missing all))
          | inr cached ↦ inl (elem-keys k r.values ∙ cached)
        ])
        | inr some_left ↦ rw some_left (
            finish_get_batch_accounts r.store _ (keys r.values)
              (fetch ops zero_value c.layers r.missing m) k (rw some_left at fine)
              (elim known [
                | inl left_over ↦ inl (λ p. fetch_accounts c.layers r.missing m k p left_over)
                | inr cached ↦ inr (elem-keys k r.values ∙ cached)
              ]))
      ]
    where
      r : Batch S K V
      r = ops.get_batch c.missing_cache ks []

      known : Accounted r.missing r.values k
      known = laws.get_batch_complete c.missing_cache ks [] k quiet h

-- `get_chunk` is how a store reads a chunk, and `cast` its CastKeyToString.
module _ {S K V : Type 0} (get_chunk : S → List (K × V) → List K → Batch S K V)
    (cast : K → Option String) (batch_size : ℕ) where
  get_batch-texts_all :
      (s : S) (ks : List K) (m : List (K × V))
      → texts_all cast ks ≡ false
      → Batching.get_batch get_chunk cast batch_size s ks m
        ≡ record { missing = []; values = m; err = some failed; store = s }
  unfolding Batching.get_batch
  get_batch-texts_all s ks m h = elim (Option-cases (uniq_keys cast ks)) [
    | inl bad ↦ rw (bad, Batching.get_batch) refl
    | inr (unique, good) ↦ absurd (ground (arith, good, h, (uniq_keys_lem cast ks).0))
  ]

  -- If a key that is asked for has no text (CastKeyToString), and the missing cache reads a batch in
  -- chunks (getBatch), then the read of the missing cache fails, and yet GetBatch of the chain returns no
  -- error, no missing key and the result map as it was, and reads no layer, whatever the layers have at
  -- the other keys.
  pub get_batch_swallows :
      ⦃e : Comparable K⦄
      → (ops : KvStore S K V) (zero_value : V) (c : Chain S) (ks : List K) (m : List (K × V))
      → ((us : List K) (values : List (K × V))
          → ops.get_batch c.missing_cache us values
            ≡ Batching.get_batch get_chunk cast batch_size c.missing_cache us values)
      → texts_all cast ks ≡ false
      → ((ops.get_batch c.missing_cache ks []).err ≡ some failed)
        × ((get_batch ops zero_value c ks m).err ≡ none)
        × ((get_batch ops zero_value c ks m).missing ≡ [])
        × ((get_batch ops zero_value c ks m).values ≡ m)
        × ((get_batch ops zero_value c ks m).chain.layers ≡ c.layers)
  unfolding get_batch
  get_batch_swallows ops zero_value c ks m in_chunks h =
      rw (in_chunks ks [] ∙ get_batch-texts_all c.missing_cache ks [] h)
        (refl, refl, refl, refl, refl)
