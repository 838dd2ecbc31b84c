-- ===== src/Kvstore/Chain/Coherence.antt =====
-- When a chain of stores is a faithful cache of its last layer (pkg/kvstore/chain.go).
use mathlib.Core.Path.{subst}
use gosoline.Prelude.{
  ℕ, zero, suc, ◌<◌, ◌≡◌, refl, sym, ap, ◌∙◌, length, ◌⊎◌, inl, inr, Bool, true, false, Option,
  none, some, List, [], ◌∷◌, arith, Bool-cases, Option-cases, Comparable,
}
use gosoline.Kvstore.Store.{KvStore, Laws}
use gosoline.Kvstore.Chain.{Chain, Walk, GetOutcome, after_get, walk, propagate, finish_get, get}

module _ {S K V : Type 0} ⦃e : Comparable K⦄ (ops : KvStore S K V) (laws : Laws ops)
    (truth : K → Option V) where
  open laws use {view, Durable}

  -- A layer that holds nothing but what is true.
  abbrev pub Sound : S → Type 0
  Sound s = (k : K) (v : V) → view s k ≡ some v → truth k ≡ some v

  -- Every layer is sound, and the last is durable and holds exactly what is true.
  abbrev pub Layered : List S → Type 0
  Layered [] = ⊥
  Layered (s ∷ []) = Durable s × ((k : K) → view s k ≡ truth k)
  Layered (s ∷ t ∷ rest) = Sound s × Layered (t ∷ rest)

  -- The layers are as above, and a key in the missing cache is in no store.
  pub record IsCoherent (c : Chain S) : Type 0 where
    pub layered : Layered c.layers
    pub absent : (k : K) (v : V) → view c.missing_cache k ≡ some v → truth k ≡ none

  -- The two ways in which a read may succeed.
  abbrev pub Answers : K → (exists : Bool) → V → Type 0
  Answers k exists v =
      ((exists ≡ true) × (truth k ≡ some v)) ⊎ ((exists ≡ false) × (truth k ≡ none))

module _ {S K V : Type 0} ⦃e : Comparable K⦄ (ops : KvStore S K V) (laws : Laws ops)
    (zero_value : V) (truth : K → Option V) where
  open laws use {view, Durable}

  -- A layer keeps what it promises when it is read.
  Sound-get :
      (s : S) (k : K) (b : V) → Sound ops laws truth s → Sound ops laws truth (ops.get s k b).store
  Sound-get s k b h j v p = h j v (laws.get_frame s k j b v p)

  pub Layered-cons :
      (s : S) (layers : List S)
      → Sound ops laws truth s
      → Layered ops laws truth layers
      → Layered ops laws truth (s ∷ layers)
  Layered-cons s [] h l = absurd l
  Layered-cons s (t ∷ rest) h l = (h, l)

  -- What the loop ends with, wherever it ends.
  abbrev WalkIsRight : K → Walk S V → Type 0
  WalkIsRight k w =
      Layered ops laws truth w.layers × (w.err ≡ none → Answers ops laws truth k w.exists w.value)

  walk_last :
      (s : S) (k : K) (b : V)
      → Durable s × ((j : K) → view s j ≡ truth j)
      → WalkIsRight k (walk ops zero_value (s ∷ []) k b)
  unfolding walk after_get
  walk_last s k b h = elim (Option-cases (ops.get s k b).err) [
    | inl fine ↦ rw fine (elim (Bool-cases (ops.get s k b).exists) [
      | inl found ↦ rw found (kept, λ _. inl (refl, sym (h.1 k) ∙ laws.get_found s k b found))
      | inr gone ↦
          rw gone (kept, λ _. inr (refl, sym (h.1 k) ∙ laws.get_missing s k b h.0 gone fine))
    ])
    | inr (e, bad) ↦ rw bad (kept, λ p. cc)
  ]
    where
      kept : Durable (ops.get s k b).store × ((j : K) → view (ops.get s k b).store j ≡ truth j)
      kept = ((laws.get_durable s k b h.0).0, λ j. (laws.get_durable s k b h.0).1 j ∙ h.1 j)

  after_get-WalkIsRight :
      (s t : S) (rest : List S) (k : K) (b : V) (later : Walk S V)
      → Layered ops laws truth (s ∷ t ∷ rest)
      → WalkIsRight k later
      → WalkIsRight k (after_get (ops.get s k b) (t ∷ rest) later)
  unfolding after_get
  after_get-WalkIsRight s t rest k b later h more = elim (Bool-cases (ops.get s k b).exists) [
    | inl found ↦
        rw found
          ((kept, h.1), λ _. inl (refl, h.0 k (ops.get s k b).value (laws.get_found s k b found)))
    | inr gone ↦ rw gone (Layered-cons (ops.get s k b).store later.layers kept more.0, more.1)
  ]
    where
      kept : Sound ops laws truth (ops.get s k b).store
      kept = Sound-get s k b h.0

  walk-WalkIsRight :
      (layers : List S) (k : K) (b : V)
      → Layered ops laws truth layers
      → WalkIsRight k (walk ops zero_value layers k b)
  unfolding walk
  walk-WalkIsRight [] k b h = absurd h
  walk-WalkIsRight (s ∷ []) k b h = walk_last s k b h
  walk-WalkIsRight (s ∷ t ∷ rest) k b h =
      after_get-WalkIsRight s t rest k b (walk ops zero_value (t ∷ rest) k (ops.get s k b).value) h
        (walk-WalkIsRight (t ∷ rest) k (ops.get s k b).value h.1)

  -- A layer stays sound when a true entry is written to it.
  Sound-put :
      (s : S) (k : K) (v : V)
      → truth k ≡ some v
      → Sound ops laws truth s
      → Sound ops laws truth (ops.put s k v).store
  Sound-put s k v t h j w p = elim (laws.put_adds s k j v w p) [
    | inl (e, q) ↦ subst (λ i. truth i ≡ some w) e (t ∙ ap some (sym q))
    | inr q ↦ h j w q
  ]

  -- Writing a true entry back keeps the last layer too, whether or not the write succeeds there.
  Layered-propagate :
      (i : ℕ) (layers : List S) (k : K) (v : V)
      → truth k ≡ some v
      → i < length layers
      → Layered ops laws truth layers
      → Layered ops laws truth (propagate ops zero_value i layers k v).0
  unfolding propagate
  Layered-propagate zero layers k v t b h = h
  Layered-propagate (suc i) [] k v t b h = absurd h
  Layered-propagate (suc i) (s ∷ []) k v t b h = absurd (omega arith)
  Layered-propagate (suc i) (s ∷ u ∷ rest) k v t b h =
      Layered-cons (ops.put s k v).store (propagate ops zero_value i (u ∷ rest) k v).0
        (Sound-put s k v t h.0) (Layered-propagate i (u ∷ rest) k v t (omega arith) h.1)

  -- The index at which the loop found the key is one of a layer.
  found_in-walk :
      (layers : List S) (k : K) (b : V)
      → let w = walk ops zero_value layers k b in
        (length w.layers ≡ length layers) × (w.exists ≡ true → w.found_in < length layers)
  unfolding walk after_get
  found_in-walk [] k b = (refl, λ e. cc)
  found_in-walk (s ∷ rest) k b = ground (arith, found_in-walk rest k (ops.get s k b).value)

  -- The missing cache names only keys that no store has.
  abbrev Absent : S → Type 0
  Absent s = (k : K) (v : V) → view s k ≡ some v → truth k ≡ none

  Absent-contains : (s : S) (k : K) → Absent s → Absent (ops.contains s k).store
  Absent-contains s k h j v p = h j v (laws.contains_frame s k j v p)

  Absent-put : (s : S) (k : K) (v : V) → truth k ≡ none → Absent s → Absent (ops.put s k v).store
  Absent-put s k v t h j w p = elim (laws.put_adds s k j v w p) [
    | inl (e, q) ↦ subst (λ i. truth i ≡ none) e t
    | inr q ↦ h j w q
  ]

  abbrev GetIsRight : K → GetOutcome S V → Type 0
  GetIsRight k r =
      IsCoherent ops laws truth r.chain × (r.err ≡ none → Answers ops laws truth k r.exists r.value)

  finish_get-GetIsRight :
      (m : S) (n : ℕ) (k : K) (w : Walk S V)
      → Absent m
      → WalkIsRight k w
      → (w.exists ≡ true → w.found_in < length w.layers)
      → GetIsRight k (finish_get ops zero_value m n k w)
  unfolding finish_get
  finish_get-GetIsRight m n k w a h i = elim (Option-cases w.err) [
    | inr (e, bad) ↦ rw bad (record { layered = h.0; absent = a }, λ p. cc)
    | inl fine ↦ rw fine (elim (h.1 fine) [
      | inl (found, t) ↦ rw found (
        record {
          layered = Layered-propagate w.found_in w.layers k w.value t (i found) h.0;
          absent = a;
        },
        λ p. inl (refl, t),
      )
      | inr (gone, t) ↦
          rw gone
            (record { layered = h.0; absent = Absent-put m k zero_value t a }, λ p. inr (refl, t))
    ])
  ]

  -- Get on a coherent chain answers as the last layer would: whenever it returns no error, it finds
  -- exactly the value that is stored, or reports the key missing and the key is stored nowhere.
  -- Whatever the other layers' and the missing cache's failures, the chain stays coherent.
  pub get-IsCoherent :
      (c : Chain S) (k : K) (b : V)
      → IsCoherent ops laws truth c
      → IsCoherent ops laws truth (get ops zero_value c k b).chain
        × ((get ops zero_value c k b).err ≡ none
            → Answers ops laws truth k
                (get ops zero_value c k b).exists
                (get ops zero_value c k b).value)
  unfolding get
  get-IsCoherent c k b h = elim (Bool-cases (ops.contains c.missing_cache k).exists) [
    | inl known ↦
        rw known (record { layered = h.layered; absent = kept }, λ p. inr (refl, gone known))
    | inr new ↦ rw new (
        finish_get-GetIsRight (ops.contains c.missing_cache k).store _ k
          (walk ops zero_value c.layers k b) kept (walk-WalkIsRight c.layers k b h.layered)
          (λ e. omega (arith, (found_in-walk c.layers k b).0, (found_in-walk c.layers k b).1 e)))
  ]
    where
      kept : Absent (ops.contains c.missing_cache k).store
      kept = Absent-contains c.missing_cache k h.absent

      gone : (ops.contains c.missing_cache k).exists ≡ true → truth k ≡ none
      gone e = let (v, p) = laws.contains_sound c.missing_cache k e in h.absent k v p
