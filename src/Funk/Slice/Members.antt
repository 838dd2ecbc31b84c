-- ===== src/Funk/Slice/Members.antt =====
-- Which elements the functions of pkg/funk/slice.go that group and select keep, and their order.
use mathlib.Core.List.{append_assoc, append-nil}
use mathlib.Core.Bool.{true≢false}
use gosoline.Prelude.{
  ◌≡◌, ◌↔◌, refl, sym, ap, ◌∙◌, inl, inr, Bool, true, false, some, List, [], ◌∷◌, ◌++◌, arith,
  lookup, assign, lookup-assign, All, Comparable, ◌==◌, Bool-cases, beq_eq,
}
use gosoline.Funk.Slice.{or_nil, filter, find_first_func, all, partition_from, partition}

module _ {ℓ} {A : Type ℓ} where
  -- What FindFirstFunc finds satisfies the predicate, and no element before it does.
  find_first_func_splits :
      (inp : List A) (pred : A → Bool) (x : A)
      → find_first_func inp pred ≡ some x
      → (before after : List A) × (inp ≡ before ++ x ∷ after)
        × All (λ y. pred y ≡ false) before
        × (pred x ≡ true)
  find_first_func_splits [] pred x h = absurd (ground (arith, h))
  find_first_func_splits (y ∷ ys) pred x h = elim (Bool-cases (pred y)) [
    | inl p ↦
        let same : y ≡ x = ground (arith, h, p) in
        ([], ys, ap (λ t. t ∷ ys) same, tt, ap pred (sym same) ∙ p)
    | inr p ↦
        let (before, after, e, unsat, sat) =
          find_first_func_splits ys pred x (ground (arith, h, p)) in
        (y ∷ before, after, ap (λ t. y ∷ t) e, (p, unsat), sat)
  ]

  -- All says whether the predicate holds of every element, and is true of none.
  all_lem : (inp : List A) (pred : A → Bool) → (all inp pred ≡ true) ↔ All (λ x. pred x ≡ true) inp
  all_lem [] pred = (λ _. tt, λ _. refl)
  all_lem (x ∷ xs) pred = elim (Bool-cases (pred x)) [
    | inl p ↦ rw p (λ h. (refl, (all_lem xs pred).0 h), λ h. (all_lem xs pred).1 h.1)
    | inr p ↦ rw p (λ h. absurd (true≢false (sym h)), λ h. absurd (true≢false (sym h.0)))
  ]

module _ {ℓ κ} {A : Type ℓ} {K : Type κ} ⦃e : Comparable K⦄ where
  partition_from_lem :
      (sl : List A) (keyer : A → K) (result : List (K × List A)) (k : K)
      → or_nil (lookup k (partition_from sl keyer result))
        ≡ or_nil (lookup k result) ++ filter sl (λ x. keyer x == k)
  partition_from_lem [] keyer result k = sym (append-nil (or_nil (lookup k result)))
  partition_from_lem (x ∷ sl) keyer result k =
      let group = or_nil (lookup (keyer x) result) ++ x ∷ [] in
      let later = partition_from_lem sl keyer (assign (keyer x) group result) k in
      elim (Bool-cases (keyer x == k)) [
        | inl p ↦ rw p (
            later
            ∙ rw (lookup-assign k (keyer x) group result, p)
                (rw (beq_eq (keyer x) k p) (
                  append_assoc (or_nil (lookup k result)) (x ∷ [])
                    (filter sl (λ y. keyer y == k)))))
        | inr p ↦ rw p (later ∙ rw (lookup-assign k (keyer x) group result, p) refl)
      ]

  -- Partition groups a slice: the group of a key is the elements that have the key, in the order of the
  -- slice, and none that has another.
  partition_lem :
      (sl : List A) (keyer : A → K) (k : K)
      → or_nil (lookup k (partition sl keyer)) ≡ filter sl (λ x. keyer x == k)
  partition_lem sl keyer k = partition_from_lem sl keyer [] k
