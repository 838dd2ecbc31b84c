-- ===== src/Kvstore/Chain/Batch/Reads.antt =====
-- What `GetBatch` of pkg/kvstore/chain.go reads from a coherent chain, and leaves of it.
use gosoline.Prelude.{
  ℕ, zero, suc, ◌≡◌, refl, inl, inr, Option, none, some, List, [], ◌∷◌, Bool-cases, Option-cases,
  Comparable, ◌==◌, beq_refl, All, All-append, lookup, keys,
}
use gosoline.Kvstore.Store.{KvStore, Laws, Batch, Entry}
use gosoline.Kvstore.Chain.{Chain}
use gosoline.Kvstore.Chain.Coherence.{Sound, Layered, Layered-cons, IsCoherent}
use gosoline.Kvstore.Chain.Batch.{
  Fetch, BatchOutcome, is_empty, found_of, missing_values, fetch, refill_layer, propagate_batch,
  store_missing_keys, finish_get_batch, get_batch,
}
use gosoline.Kvstore.Chain.Batch.Fetches.{
  IsAbsent, TrueEntries, Refilled, FetchIsRight, fetch-FetchIsRight,
}

module _ {S K V : Type 0} ⦃e : Comparable K⦄ (ops : KvStore S K V) (laws : Laws ops)
    (zero_value : V) (truth : K → Option V) where
  open laws use {view, Durable}

  -- The entries written back are entries of the result, and none is at an absent key.
  Entry-found_of :
      (ks : List K) (m : List (K × V))
      → TrueEntries truth m
      → (k : K) (v : V) → Entry k v (found_of ks m)
      → truth k ≡ some v
  unfolding found_of
  Entry-found_of [] m t k v p = absurd p
  Entry-found_of (j ∷ js) m t k v p = elim (Option-cases (lookup j m)) [
    | inl gone ↦ Entry-found_of js m t k v (rw (gone, found_of) at p)
    | inr (w, found) ↦ elim (rw (found, found_of) at p) [
      | inl (same, kept) ↦ rw (← same, ← kept) (t j w found)
      | inr other ↦ Entry-found_of js m t k v other
    ]
  ]

  found_of_absent :
      (ks : List K) (m : List (K × V))
      → TrueEntries truth m
      → All (IsAbsent truth) ks
      → found_of ks m ≡ []
  unfolding found_of
  found_of_absent [] m t h = refl
  found_of_absent (j ∷ js) m t h = elim (Option-cases (lookup j m)) [
    | inl gone ↦ rw (gone, found_of) (found_of_absent js m t h.1)
    | inr (w, found) ↦ cc (t j w found, h.0)
  ]

  Sound-refill_layer :
      (s : S) (lacked : List K) (m : List (K × V))
      → Sound ops laws truth s
      → TrueEntries truth m
      → Sound ops laws truth (refill_layer ops zero_value s lacked m).store
  unfolding refill_layer
  Sound-refill_layer s lacked m h t = elim (Bool-cases (is_empty (found_of lacked m))) [
    | inl nothing ↦ rw nothing h
    | inr something ↦ rw something (λ k v p.
        elim (laws.put_batch_adds s (found_of lacked m) k v p) [
          | inl new ↦ Entry-found_of lacked m t k v new
          | inr old ↦ h k v old
        ])
  ]

  propagate_batch_nil :
      (i : ℕ) (refill : List (List K)) (m : List (K × V))
      → (propagate_batch ops zero_value i [] refill m).0 ≡ []
  unfolding propagate_batch
  propagate_batch_nil zero refill m = refl
  propagate_batch_nil (suc i) refill m = refl

  refill_layer_absent :
      (s : S) (lacked : List K) (m : List (K × V))
      → TrueEntries truth m
      → All (IsAbsent truth) lacked
      → (refill_layer ops zero_value s lacked m).store ≡ s
  unfolding refill_layer
  refill_layer_absent s lacked m t h = rw (found_of_absent lacked m t h)

  Layered-propagate_batch :
      (i : ℕ) (layers : List S) (refill : List (List K)) (m : List (K × V))
      → Layered ops laws truth layers
      → TrueEntries truth m
      → Refilled truth i layers refill
      → Layered ops laws truth (propagate_batch ops zero_value i layers refill m).0
  unfolding propagate_batch
  Layered-propagate_batch zero layers refill m h t r = h
  Layered-propagate_batch (suc i) [] refill m h t r = h
  Layered-propagate_batch (suc i) (s ∷ rest) [] m h t r = h
  Layered-propagate_batch (suc i) (s ∷ []) (lacked ∷ refill) m h t r =
      rw (propagate_batch_nil i refill m) (rw (refill_layer_absent s lacked m t r) h)
  Layered-propagate_batch (suc i) (s ∷ u ∷ rest) (lacked ∷ refill) m h t r =
      Layered-cons ops laws zero_value truth (refill_layer ops zero_value s lacked m).store
        (propagate_batch ops zero_value i (u ∷ rest) refill m).0
        (Sound-refill_layer s lacked m h.0 t)
        (Layered-propagate_batch i (u ∷ rest) refill m h.1 t r)

  -- The keys that are noted as missing are stored nowhere.
  IsAbsent-missing_values :
      (ks : List K) (k : K) (v : V)
      → All (IsAbsent truth) ks
      → Entry k v (missing_values zero_value ks)
      → IsAbsent truth k
  unfolding missing_values
  IsAbsent-missing_values [] k v h p = absurd p
  IsAbsent-missing_values (j ∷ js) k v h (inl (same, kept)) = rw (← same) h.0
  IsAbsent-missing_values (j ∷ js) k v h (inr other) = IsAbsent-missing_values js k v h.1 other

  abbrev Absent : S → Type 0
  Absent s = (k : K) (v : V) → view s k ≡ some v → truth k ≡ none

  Absent-store_missing_keys :
      (s : S) (ks : List K)
      → Absent s
      → All (IsAbsent truth) ks
      → Absent (store_missing_keys ops zero_value s ks).store
  unfolding store_missing_keys
  Absent-store_missing_keys s [] a h = λ k v p. a k v p
  Absent-store_missing_keys s (j ∷ js) a h = λ k v p.
      elim (laws.put_batch_adds s (missing_values zero_value (j ∷ js)) k v p) [
        | inl new ↦ IsAbsent-missing_values (j ∷ js) k v h new
        | inr old ↦ a k v old
      ]

  Absent-keys :
      (m : List (K × V))
      → ((k : K) (v : V) → lookup k m ≡ some v → truth k ≡ none)
      → All (IsAbsent truth) (keys m)
  Absent-keys [] h = tt
  Absent-keys ((j, v) ∷ m) h =
      let first : truth j ≡ none = h j v (rw beq_refl) in
      (
        first,
        Absent-keys m (λ k w p. elim (Bool-cases (j == k)) [
          | inl same ↦ rw (← (e.equals_iff j k).0 same) first
          | inr other ↦ h k w (rw other p)
        ]),
      )

  abbrev BatchIsRight : BatchOutcome S K V → Type 0
  BatchIsRight r =
      IsCoherent ops laws truth r.chain
      × TrueEntries truth r.values
      × (r.err ≡ none → All (IsAbsent truth) r.missing)

  finish_get_batch-BatchIsRight :
      (s : S) (n : ℕ) (cached : List K) (f : Fetch S K V)
      → Absent s
      → All (IsAbsent truth) cached
      → FetchIsRight ops laws zero_value truth f
      → BatchIsRight (finish_get_batch ops zero_value s n cached f)
  unfolding finish_get_batch
  finish_get_batch-BatchIsRight s n cached f a c h = elim (Option-cases f.err) [
    | inr (x, bad) ↦ rw bad (record { layered = h.layered; absent = a }, h.values, λ p. cc)
    | inl fine ↦ rw fine (
      record {
        layered =
            Layered-propagate_batch f.found_in f.layers f.refill f.values h.layered h.values
              (h.refilled fine);
        absent = Absent-store_missing_keys s f.todo a (h.todo fine);
      },
      h.values,
      λ p. All-append (IsAbsent truth) f.todo cached (h.todo fine) c,
    )
  ]

  -- GetBatch on a coherent chain, given a result map that holds only true entries, such as an empty one,
  -- leaves only true entries in it, and whenever it returns no error, it reports as missing only keys
  -- that are stored nowhere. Whatever fails, the chain stays coherent.
  pub get_batch-IsCoherent :
      (c : Chain S) (ks : List K) (m : List (K × V))
      → IsCoherent ops laws truth c
      → TrueEntries truth m
      → IsCoherent ops laws truth (get_batch ops zero_value c ks m).chain
        × TrueEntries truth (get_batch ops zero_value c ks m).values
        × ((get_batch ops zero_value c ks m).err ≡ none
            → All (λ k. truth k ≡ none) (get_batch ops zero_value c ks m).missing)
  unfolding get_batch
  get_batch-IsCoherent c ks m h t =
      elim (Bool-cases (is_empty (ops.get_batch c.missing_cache ks []).missing)) [
        | inl all ↦ rw all (record { layered = h.layered; absent = kept }, t, λ p. cached)
        | inr some_left ↦ rw some_left (
            finish_get_batch-BatchIsRight r.store _ (keys r.values)
              (fetch ops zero_value c.layers r.missing m) kept cached
              (fetch-FetchIsRight ops laws zero_value truth c.layers r.missing m h.layered t))
      ]
    where
      r : Batch S K V
      r = ops.get_batch c.missing_cache ks []

      kept : Absent r.store
      kept k v p = h.absent k v (laws.get_batch_frame c.missing_cache ks [] k v p)

      cached : All (IsAbsent truth) (keys r.values)
      cached = Absent-keys r.values (λ k v p.
          elim (laws.get_batch_sound c.missing_cache ks [] k v p) [
            | inl none_before ↦ cc
            | inr known ↦ h.absent k v known
          ])
