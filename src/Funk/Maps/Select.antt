-- ===== src/Funk/Maps/Select.antt =====
-- What MapFilter, IntersectMaps and DifferenceMaps of pkg/funk/maps.go keep.
use gosoline.Prelude.{
  ◌≡◌, refl, sym, ◌∙◌, inl, inr, Bool, true, false, not, ◌&&◌, Option, none, some, List, [], ◌∷◌,
  lookup, assign, lookup-assign, assign-IsMap, IsMap, Comparable, ◌==◌, Bool-cases, beq_eq,
  if◌then◌else◌,
}
use gosoline.Funk.Slice.{all}
use gosoline.Funk.Maps.{select_into, map_filter, has_key, intersect_maps, difference_maps}
use gosoline.Funk.Maps.Merge.{or_else, or_else-none, lookup-absent}

-- The value, if the test accepts it.
abbrev pub kept {κ} : {V : Type κ} → (V → Bool) → Option V → Option V
kept accept none = none
kept accept (some v) = if accept v then some v else none

module _ {κ} {V : Type κ} where
  kept_const : (b : Bool) (found : Option V) → kept (λ v. b) found ≡ (if b then found else none)
  kept_const true none = refl
  kept_const true (some v) = refl
  kept_const false none = refl
  kept_const false (some v) = refl

  if_not : (b : Bool) (a : Option V) → (if not b then a else none) ≡ (if b then none else a)
  if_not true a = refl
  if_not false a = refl

module _ {ℓ κ} {K : Type ℓ} {V : Type κ} ⦃e : Comparable K⦄ where
  lookup-select_into :
      (f : K → V → Bool) (result m : List (K × V)) (k : K)
      → IsMap m
      → lookup k (select_into f result m) ≡ or_else (kept (f k) (lookup k m)) (lookup k result)
  lookup-select_into f result [] k h = refl
  lookup-select_into f result ((j, v) ∷ m) k h = elim (Bool-cases (f j v)) [
    | inl a ↦ elim (Bool-cases (j == k)) [
      | inl p ↦
          rw (a, p)
            (lookup-select_into f (assign j v result) m k h.1
              ∙ rw (lookup-absent j k m p h.0, lookup-assign k j v result, p, sym (beq_eq j k p), a)
                  refl)
      | inr p ↦
          rw (a, p)
            (lookup-select_into f (assign j v result) m k h.1
              ∙ rw (lookup-assign k j v result, p) refl)
    ]
    | inr a ↦ elim (Bool-cases (j == k)) [
      | inl p ↦
          rw (a, p)
            (lookup-select_into f result m k h.1
              ∙ rw (lookup-absent j k m p h.0, sym (beq_eq j k p), a) refl)
      | inr p ↦ rw (a, p) (lookup-select_into f result m k h.1)
    ]
  ]

  select_into-IsMap :
      (f : K → V → Bool) (result m : List (K × V)) → IsMap result → IsMap (select_into f result m)
  select_into-IsMap f result [] h = h
  select_into-IsMap f result ((k, v) ∷ m) h = elim (Bool-cases (f k v)) [
    | inl a ↦ rw a (select_into-IsMap f (assign k v result) m (assign-IsMap k v result h))
    | inr a ↦ rw a (select_into-IsMap f result m h)
  ]

  -- MapFilter gives a map, that maps a key to what it was mapped to if the predicate holds of both, and
  -- has no other keys.
  map_filter_lem :
      (m : List (K × V)) (f : K → V → Bool) (k : K)
      → IsMap m
      → IsMap (map_filter m f) × (lookup k (map_filter m f) ≡ kept (f k) (lookup k m))
  map_filter_lem m f k h = (
    select_into-IsMap f [] m tt,
    lookup-select_into f [] m k h ∙ or_else-none (kept (f k) (lookup k m)),
  )

  -- IntersectMaps keeps the entries of the first map whose key each of the others has.
  intersect_maps_lem :
      (m1 m2 : List (K × V)) (ms : List (List (K × V))) (k : K)
      → IsMap m1
      → IsMap (intersect_maps m1 m2 ms)
        × (lookup k (intersect_maps m1 m2 ms)
            ≡ (if has_key k m2 && all ms (λ m3. has_key k m3) then lookup k m1 else none))
  intersect_maps_lem m1 m2 ms k h =
      let (is_map, found) =
        map_filter_lem m1 (λ j v. has_key j m2 && all ms (λ m3. has_key j m3)) k h in
      (is_map, found ∙ kept_const (has_key k m2 && all ms (λ m3. has_key k m3)) (lookup k m1))

module _ {ℓ κ μ} {K : Type ℓ} {V1 : Type κ} {V2 : Type μ} ⦃e : Comparable K⦄ where
  -- DifferenceMaps keeps, on each side, the entries whose key the other side does not have.
  difference_maps_lem :
      (left : List (K × V1)) (right : List (K × V2)) (k : K)
      → IsMap left
      → IsMap right
      → (lookup k (difference_maps left right).0
          ≡ (if has_key k right then none else lookup k left))
        × (lookup k (difference_maps left right).1
            ≡ (if has_key k left then none else lookup k right))
  difference_maps_lem left right k h g = (
    (map_filter_lem left (λ j v. not (has_key j right)) k h).1
        ∙ kept_const (not (has_key k right)) (lookup k left)
        ∙ if_not (has_key k right) (lookup k left),
    (map_filter_lem right (λ j v. not (has_key j left)) k g).1
        ∙ kept_const (not (has_key k left)) (lookup k right)
        ∙ if_not (has_key k left) (lookup k right),
  )
