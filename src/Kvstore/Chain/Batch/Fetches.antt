-- ===== src/Kvstore/Chain/Batch/Fetches.antt =====
-- What `getFromChain` of pkg/kvstore/chain.go reads from layers that hold no wrong value.
use gosoline.Prelude.{
  ℕ, suc, ◌≡◌, sym, ◌∙◌, inl, inr, true, Option, none, some, List, [], ◌∷◌, Bool-cases,
  Option-cases, Comparable, All, lookup,
}
use gosoline.Kvstore.Store.{KvStore, Laws}
use gosoline.Kvstore.Chain.Coherence.{Sound, Layered, Layered-cons}
use gosoline.Kvstore.Chain.Batch.{Fetch, is_empty, after_fetch, remaining_of, fetch}

All-map :
    {A : Type 0} (P Q : A → Type 0) (xs : List A) → ((a : A) → P a → Q a) → All P xs → All Q xs
All-map P Q [] f h = h
All-map P Q (x ∷ xs) f h = (f x h.0, All-map P Q xs f h.1)

All-is_empty : {A : Type 0} (P : A → Type 0) (xs : List A) → is_empty xs ≡ true → All P xs
All-is_empty P [] h = tt
All-is_empty P (x ∷ xs) h = cc

module _ {K V : Type 0} ⦃e : Comparable K⦄ (truth : K → Option V) where
  abbrev pub IsAbsent : K → Type 0
  IsAbsent k = truth k ≡ none

  abbrev pub TrueEntries : List (K × V) → Type 0
  TrueEntries m = (k : K) (v : V) → lookup k m ≡ some v → truth k ≡ some v

  -- The last layer, if it was read, lacked only what is stored nowhere.
  abbrev pub Refilled : {S : Type 0} → ℕ → List S → List (List K) → Type 0
  Refilled (suc i) (s ∷ []) (lacked ∷ refill) = All IsAbsent lacked
  Refilled (suc i) (s ∷ t ∷ rest) (lacked ∷ refill) = Refilled i (t ∷ rest) refill
  Refilled _ _ _ = Unit

module _ {S K V : Type 0} ⦃e : Comparable K⦄ (ops : KvStore S K V) (laws : Laws ops)
    (zero_value : V) (truth : K → Option V) where
  open laws use {view, Durable}

  pub record FetchIsRight (f : Fetch S K V) : Type 0 where
    pub layered : Layered ops laws truth f.layers
    pub values : TrueEntries truth f.values
    pub todo : f.err ≡ none → All (IsAbsent truth) f.todo
    pub refilled : f.err ≡ none → Refilled truth f.found_in f.layers f.refill

  TrueEntries-get_batch :
      (s : S) (ks : List K) (m : List (K × V))
      → Sound ops laws truth s
      → TrueEntries truth m
      → TrueEntries truth (ops.get_batch s ks m).values
  TrueEntries-get_batch s ks m h t k v p = elim (laws.get_batch_sound s ks m k v p) [
    | inl q ↦ t k v q
    | inr q ↦ h k v q
  ]

  fetch_last :
      (s : S) (ks : List K) (m : List (K × V))
      → Layered ops laws truth (s ∷ [])
      → TrueEntries truth m
      → FetchIsRight (fetch ops zero_value (s ∷ []) ks m)
  unfolding fetch after_fetch
  fetch_last s ks m h t = elim (Option-cases (ops.get_batch s ks m).err) [
    | inr (x, bad) ↦
        rw bad (record { layered = kept; values = now; todo = λ p. cc; refilled = λ p. cc })
    | inl fine ↦ rw fine (elim (Bool-cases (is_empty (ops.get_batch s ks m).missing)) [
      | inl all ↦
          rw all
            (record { layered = kept; values = now; todo = λ p. gone fine; refilled = λ p. tt })
      | inr some_left ↦ rw some_left (record {
        layered = kept;
        values = now;
        todo = λ p. gone fine;
        refilled = λ p. gone fine;
      })
    ])
  ]
    where
      now : TrueEntries truth (ops.get_batch s ks m).values
      now = TrueEntries-get_batch s ks m (λ k v p. sym (h.1 k) ∙ p) t

      kept : Layered ops laws truth ((ops.get_batch s ks m).store ∷ [])
      kept = (
        (laws.get_batch_durable s ks m h.0).0,
        λ j. (laws.get_batch_durable s ks m h.0).1 j ∙ h.1 j,
      )

      gone : (ops.get_batch s ks m).err ≡ none → All (IsAbsent truth) (ops.get_batch s ks m).missing
      gone fine =
          All-map (λ j. view s j ≡ none) (IsAbsent truth) (ops.get_batch s ks m).missing
            (λ j p. sym (h.1 j) ∙ p) (laws.get_batch_missing s ks m h.0 fine)

  Refilled-cons :
      (i : ℕ) (s : S) (layers : List S) (lacked : List K) (refill : List (List K))
      → Layered ops laws truth layers
      → Refilled truth i layers refill
      → Refilled truth (suc i) (s ∷ layers) (lacked ∷ refill)
  Refilled-cons i s [] lacked refill h r = absurd h
  Refilled-cons i s (t ∷ rest) lacked refill h r = r

  after_fetch-FetchIsRight :
      (s t : S) (rest : List S) (ks : List K) (m : List (K × V)) (later : Fetch S K V)
      → Layered ops laws truth (s ∷ t ∷ rest)
      → TrueEntries truth m
      → FetchIsRight later
      → FetchIsRight (
          after_fetch
            (ops.get_batch s ks m)
            (remaining_of (ops.get_batch s ks m) ks)
            (t ∷ rest)
            later)
  unfolding after_fetch
  after_fetch-FetchIsRight s t rest ks m later h true_m more =
      elim (Bool-cases (is_empty (remaining_of (ops.get_batch s ks m) ks))) [
        | inl all ↦ rw all (record {
          layered = (kept, h.1);
          values = TrueEntries-get_batch s ks m h.0 true_m;
          todo = λ p. All-is_empty (IsAbsent truth) (remaining_of (ops.get_batch s ks m) ks) all;
          refilled = λ p. tt;
        })
        | inr some_left ↦ rw some_left (record {
          layered =
              Layered-cons ops laws zero_value truth (ops.get_batch s ks m).store later.layers kept
                more.layered;
          values = more.values;
          todo = more.todo;
          refilled = λ p.
              Refilled-cons later.found_in (ops.get_batch s ks m).store later.layers
                (remaining_of (ops.get_batch s ks m) ks) later.refill more.layered
                (more.refilled p);
        })
      ]
    where
      kept : Sound ops laws truth (ops.get_batch s ks m).store
      kept j v p = h.0 j v (laws.get_batch_frame s ks m j v p)

  pub fetch-FetchIsRight :
      (layers : List S) (ks : List K) (m : List (K × V))
      → Layered ops laws truth layers
      → TrueEntries truth m
      → FetchIsRight (fetch ops zero_value layers ks m)
  unfolding fetch
  fetch-FetchIsRight [] ks m h t = absurd h
  fetch-FetchIsRight (s ∷ []) ks m h t = fetch_last s ks m h t
  fetch-FetchIsRight (s ∷ u ∷ rest) ks m h t =
      let r = ops.get_batch s ks m in
      after_fetch-FetchIsRight s u rest ks m
        (fetch ops zero_value (u ∷ rest) (remaining_of r ks) r.values) h t
        (fetch-FetchIsRight (u ∷ rest) (remaining_of r ks) r.values h.1
          (TrueEntries-get_batch s ks m h.0 t))
