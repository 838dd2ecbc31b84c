-- ===== src/Funk/Sets/Laws.antt =====
-- What the sets of pkg/funk/set.go contain after their operations, and Difference, Intersect and Uniq of
-- pkg/funk/slice.go.
use mathlib.Core.List.{append_assoc, append-nil}
use gosoline.Prelude.{
  ◌≡◌, refl, sym, ap, ◌∙◌, inl, inr, Bool, true, false, not, ◌&&◌, ◌||◌, List, [], ◌∷◌, ◌++◌, arith,
  elem, elem-append, AreDistinct, Comparable, ◌==◌, Bool-cases, beq_eq, beq_left, beq_clash,
  beq_swap,
}
use gosoline.Funk.Sets.{
  delete, contains, add_from, add, new_set, remove_from, remove, contains_all, set_to_slice_onto,
  only_in, difference, intersect_from, intersect, uniq_from, uniq,
}

module _ {ℓ} {T : Type ℓ} ⦃e : Comparable T⦄ where
  elem-same : (a b : T) (s : List T) → (a == b) ≡ true → elem a s ≡ elem b s
  elem-same a b s h = ap (λ t. elem t s) (beq_eq a b h)

  contains-add_from :
      (s items : List T) (result : Bool) (k : T)
      → contains (add_from s items result).0 k ≡ contains s k || elem k items
  contains-add_from s [] result k = ground arith
  contains-add_from s (item ∷ items) result k = elim (Bool-cases (contains s item)) [
    | inl p ↦ rw p (ground (arith, contains-add_from s items result k, elem-same item k s, p))
    | inr p ↦ rw p (
        ground
          (arith, contains-add_from (s ++ item ∷ []) items true k, elem-append k s (item ∷ [])))
  ]

  contains-delete :
      (s : List T) (item k : T) → contains (delete item s) k ≡ not (item == k) && contains s k
  contains-delete [] item k = ground arith
  contains-delete (x ∷ xs) item k = elim (Bool-cases (x == item)) [
    | inl p ↦ rw (p, beq_left x item k p) (ground (arith, contains-delete xs item k))
    | inr p ↦ rw p (
        ground (
          arith,
          contains-delete xs item k,
          beq_left item k x,
          beq_swap x item p,
          p,
          beq_clash x item k,
        ))
  ]

  contains-remove_from :
      (s items : List T) (result : Bool) (k : T)
      → contains (remove_from s items result).0 k ≡ contains s k && not (elem k items)
  contains-remove_from s [] result k = ground arith
  contains-remove_from s (item ∷ items) result k = elim (Bool-cases (contains s item)) [
    | inl p ↦ rw p (
        contains-remove_from (delete item s) items true k
        ∙ ground (arith, contains-delete s item k))
    | inr p ↦ rw p (ground (arith, contains-remove_from s items result k, elem-same item k s, p))
  ]

  AreDistinct-snoc :
      (s : List T) (x : T) → AreDistinct s → contains s x ≡ false → AreDistinct (s ++ x ∷ [])
  AreDistinct-snoc [] x h n = (refl, tt)
  AreDistinct-snoc (y ∷ s) x h n = (
    ground (arith, elem-append y s (x ∷ []), h.0, n, beq_swap y x),
    AreDistinct-snoc s x h.1 (ground (arith, n)),
  )

  add_from-AreDistinct :
      (s items : List T) (result : Bool) → AreDistinct s → AreDistinct (add_from s items result).0
  add_from-AreDistinct s [] result h = h
  add_from-AreDistinct s (item ∷ items) result h = elim (Bool-cases (contains s item)) [
    | inl p ↦ rw p (add_from-AreDistinct s items result h)
    | inr p ↦ rw p (add_from-AreDistinct (s ++ item ∷ []) items true (AreDistinct-snoc s item h p))
  ]

  delete-AreDistinct : (s : List T) (item : T) → AreDistinct s → AreDistinct (delete item s)
  delete-AreDistinct [] item h = tt
  delete-AreDistinct (x ∷ xs) item h = elim (Bool-cases (x == item)) [
    | inl p ↦ rw p (delete-AreDistinct xs item h.1)
    | inr p ↦ rw p (ground (arith, contains-delete xs item x, h.0), delete-AreDistinct xs item h.1)
  ]

  remove_from-AreDistinct :
      (s items : List T) (result : Bool)
      → AreDistinct s
      → AreDistinct (remove_from s items result).0
  remove_from-AreDistinct s [] result h = h
  remove_from-AreDistinct s (item ∷ items) result h = elim (Bool-cases (contains s item)) [
    | inl p ↦
        rw p (remove_from-AreDistinct (delete item s) items true (delete-AreDistinct s item h))
    | inr p ↦ rw p (remove_from-AreDistinct s items result h)
  ]

  add_from-all :
      (s items : List T) → contains_all s items ≡ true → add_from s items false ≡ (s, false)
  add_from-all s [] h = refl
  add_from-all s (item ∷ items) h = elim (Bool-cases (contains s item)) [
    | inl p ↦ rw p (add_from-all s items (ground (arith, h, p)))
    | inr p ↦ absurd (ground (arith, h, p))
  ]

  add_from-true : (s items : List T) → (add_from s items true).1 ≡ true
  add_from-true s [] = refl
  add_from-true s (item ∷ items) = elim (Bool-cases (contains s item)) [
    | inl p ↦ rw p (add_from-true s items)
    | inr p ↦ rw p (add_from-true (s ++ item ∷ []) items)
  ]

  add_from-result : (s items : List T) → (add_from s items false).1 ≡ not (contains_all s items)
  add_from-result s [] = refl
  add_from-result s (item ∷ items) = elim (Bool-cases (contains s item)) [
    | inl p ↦ rw p (add_from-result s items)
    | inr p ↦ rw p (add_from-true (s ++ item ∷ []) items)
  ]

  -- Adding to a set without duplicates leaves one without, that has the old elements and the new ones
  -- and no others, and the result says whether there was an item that the set did not have.
  add_lem :
      (s items : List T)
      → AreDistinct s
      → AreDistinct (add s items).0
        × ((k : T) → contains (add s items).0 k ≡ contains s k || elem k items)
        × ((add s items).1 ≡ not (contains_all s items))
  add_lem s items h = (
    add_from-AreDistinct s items false h,
    λ k. contains-add_from s items false k,
    add_from-result s items,
  )

  -- Removing from a set without duplicates leaves one without, that has the elements that are not
  -- among the items and no others.
  remove_lem :
      (s items : List T)
      → AreDistinct s
      → AreDistinct (remove s items).0
        × ((k : T) → contains (remove s items).0 k ≡ contains s k && not (elem k items))
  remove_lem s items h =
      (remove_from-AreDistinct s items false h, λ k. contains-remove_from s items false k)

  elem-only_in :
      (left other : List T) (k : T)
      → elem k (only_in left other) ≡ elem k left && not (elem k other)
  elem-only_in [] other k = refl
  elem-only_in (x ∷ left) other k = elim (Bool-cases (contains other x)) [
    | inl p ↦ rw p (ground (arith, elem-only_in left other k, elem-same x k other, p))
    | inr p ↦ rw p (ground (arith, elem-only_in left other k, elem-same x k other, p))
  ]

  elem-new_set : (items : List T) (k : T) → elem k (new_set items) ≡ elem k items
  elem-new_set items k = contains-add_from [] items false k

  -- Difference splits off what is only on the left and what is only on the right: an element is in the
  -- first result if it is on the left and not on the right, in the second if the other way round.
  difference_lem :
      (left right : List T) (k : T)
      → (elem k (difference left right).0 ≡ elem k left && not (elem k right))
        × (elem k (difference left right).1 ≡ elem k right && not (elem k left))
  difference_lem left right k = (
    elem-only_in left (new_set right) k ∙ ap (λ b. elem k left && not b) (elem-new_set right k),
    elem-only_in right (new_set left) k ∙ ap (λ b. elem k right && not b) (elem-new_set left k),
  )

  intersect_from_lem :
      (sl1 set2 result : List T)
      → AreDistinct result
      → AreDistinct (intersect_from sl1 set2 result)
        × ((k : T)
            → elem k (intersect_from sl1 set2 result)
              ≡ elem k result || (elem k sl1 && elem k set2))
  intersect_from_lem [] set2 result h = (h, λ k. ground arith)
  intersect_from_lem (x ∷ sl1) set2 result h = elim (Bool-cases (contains set2 x)) [
    | inl p ↦
        let (distinct, has) =
          intersect_from_lem sl1 set2 (add result (x ∷ [])).0
            (add_from-AreDistinct result (x ∷ []) false h) in
        rw p (
          distinct,
          λ k.
              has k
              ∙ ground (arith, contains-add_from result (x ∷ []) false k, elem-same x k set2, p),
        )
    | inr p ↦
        let (distinct, has) = intersect_from_lem sl1 set2 result h in
        rw p (distinct, λ k. has k ∙ ground (arith, elem-same x k set2, p))
  ]

  set_to_slice_lem : (out s : List T) → set_to_slice_onto out s ≡ out ++ s
  set_to_slice_lem out [] = sym (append-nil out)
  set_to_slice_lem out (k ∷ s) = set_to_slice_lem (out ++ k ∷ []) s ∙ append_assoc out (k ∷ []) s

  -- Intersect gives each element that both slices have, once, and no others.
  intersect_lem :
      (sl1 sl2 : List T)
      → AreDistinct (intersect sl1 sl2)
        × ((k : T) → elem k (intersect sl1 sl2) ≡ elem k sl1 && elem k sl2)
  intersect_lem sl1 sl2 =
      let (distinct, has) = intersect_from_lem sl1 (new_set sl2) [] tt in
      rw (set_to_slice_lem [] (intersect_from sl1 (new_set sl2) []))
        (distinct, λ k. has k ∙ ap (λ b. elem k sl1 && b) (elem-new_set sl2 k))

  -- The set and the result of the loop of Uniq have the same elements.
  uniq_from_lem :
      (set res sl : List T)
      → AreDistinct res
      → ((k : T) → elem k set ≡ elem k res)
      → AreDistinct (uniq_from set res sl)
        × ((k : T) → elem k (uniq_from set res sl) ≡ elem k res || elem k sl)
  uniq_from_lem set res [] h same = (h, λ k. ground arith)
  uniq_from_lem set res (x ∷ sl) h same = elim (Bool-cases (contains set x)) [
    | inl p ↦
        let (distinct, has) = uniq_from_lem set res sl h same in
        rw p (distinct, λ k. has k ∙ ground (arith, elem-same x k set, same k, p))
    | inr p ↦
        let (distinct, has) =
          uniq_from_lem (set ++ x ∷ []) (res ++ x ∷ []) sl
            (AreDistinct-snoc res x h (sym (same x) ∙ p))
            (λ k. ground (arith, elem-append k set (x ∷ []), elem-append k res (x ∷ []), same k)) in
        rw p (distinct, λ k. has k ∙ ground (arith, elem-append k res (x ∷ [])))
  ]

  -- Uniq gives each element of the slice once, and no others.
  uniq_lem : (sl : List T) → AreDistinct (uniq sl) × ((k : T) → elem k (uniq sl) ≡ elem k sl)
  uniq_lem sl = uniq_from_lem [] [] sl tt (λ k. refl)
