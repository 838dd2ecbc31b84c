-- ===== src/Funk/Maps/Merge.antt =====
-- What the maps of pkg/funk/maps.go hold that are made from several.
use mathlib.Core.Bool.{true≢false}
use gosoline.Prelude.{
  ◌≡◌, refl, sym, ap, ◌∙◌, inl, inr, true, false, Option, none, some, List, [], ◌∷◌, lookup, assign,
  lookup-assign, assign-IsMap, keys, elem, IsMap, All, Comparable, ◌==◌, Bool-cases, beq_eq,
  Option-cases, is_some, elem-keys,
}
use gosoline.Funk.Maps.{
  copy_into, merge_from, merge_maps, combined, combine_into, merge_with_from, merge_maps_with,
}

-- The first one, if it is there, and the other else.
abbrev pub or_else {ℓ} : {V : Type ℓ} → Option V → Option V → Option V
or_else none other = other
or_else (some v) other = some v

module _ {κ} {V : Type κ} where
  -- One value, or two combined.
  abbrev joined : (V → V → V) → Option V → Option V → Option V
  joined combine none found = found
  joined combine (some a) none = some a
  joined combine (some a) (some b) = some (combine a b)

  or_else_assoc : (a b c : Option V) → or_else (or_else a b) c ≡ or_else a (or_else b c)
  or_else_assoc none b c = refl
  or_else_assoc (some a) b c = refl

  pub or_else-none : (a : Option V) → or_else a none ≡ a
  or_else-none none = refl
  or_else-none (some a) = refl

  joined-none : (combine : V → V → V) (a : Option V) → joined combine a none ≡ a
  joined-none combine none = refl
  joined-none combine (some a) = refl

  joined_value :
      (combine : V → V → V) (a : Option V) (v : V)
      → some (combined combine a v) ≡ joined combine a (some v)
  joined_value combine none v = refl
  joined_value combine (some a) v = refl

module _ {ℓ κ} {K : Type ℓ} {V : Type κ} ⦃e : Comparable K⦄ where
  -- What the last of the maps that has the key maps it to.
  abbrev last_of : K → List (List (K × V)) → Option V
  last_of k [] = none
  last_of k (item ∷ m) = or_else (last_of k m) (lookup k item)

  -- What the maps have for the key, combined from the first to the last.
  abbrev joined_all : (V → V → V) → Option V → K → List (List (K × V)) → Option V
  joined_all combine so_far k [] = so_far
  joined_all combine so_far k (item ∷ m) =
      joined_all combine (joined combine so_far (lookup k item)) k m

  pub lookup-absent :
      (j k : K) (m : List (K × V)) → (j == k) ≡ true → elem j (keys m) ≡ false → lookup k m ≡ none
  lookup-absent j k m p h = elim (Option-cases (lookup k m)) [
    | inl q ↦ q
    | inr (v, q) ↦ absurd (
        true≢false
          (sym (elem-keys k m ∙ ap is_some q) ∙ sym (ap (λ t. elem t (keys m)) (beq_eq j k p)) ∙ h))
  ]

  lookup-copy_into :
      (out item : List (K × V)) (k : K)
      → IsMap item
      → lookup k (copy_into out item) ≡ or_else (lookup k item) (lookup k out)
  lookup-copy_into out [] k h = refl
  lookup-copy_into out ((j, v) ∷ item) k h = elim (Bool-cases (j == k)) [
    | inl p ↦ rw p (
        lookup-copy_into (assign j v out) item k h.1
        ∙ rw (lookup-absent j k item p h.0, lookup-assign k j v out, p) refl)
    | inr p ↦
        rw p (lookup-copy_into (assign j v out) item k h.1 ∙ rw (lookup-assign k j v out, p) refl)
  ]

  copy_into-IsMap : (out item : List (K × V)) → IsMap out → IsMap (copy_into out item)
  copy_into-IsMap out [] h = h
  copy_into-IsMap out ((k, v) ∷ item) h =
      copy_into-IsMap (assign k v out) item (assign-IsMap k v out h)

  merge_from_lem :
      (out : List (K × V)) (m : List (List (K × V))) (k : K)
      → IsMap out
      → All IsMap m
      → IsMap (merge_from out m)
        × (lookup k (merge_from out m) ≡ or_else (last_of k m) (lookup k out))
  merge_from_lem out [] k h hm = (h, refl)
  merge_from_lem out (item ∷ m) k h hm =
      let (is_map, found) =
        merge_from_lem (copy_into out item) m k (copy_into-IsMap out item h) hm.1 in
      (
        is_map,
        found
            ∙ ap (λ t. or_else (last_of k m) t) (lookup-copy_into out item k hm.0)
            ∙ sym (or_else_assoc (last_of k m) (lookup k item) (lookup k out)),
      )

  -- MergeMaps gives a map, and for a key what the last argument that has it maps it to: later
  -- arguments overwrite earlier ones, and no key is lost or made up.
  merge_maps_lem :
      (m : List (List (K × V))) (k : K)
      → All IsMap m
      → IsMap (merge_maps m) × (lookup k (merge_maps m) ≡ last_of k m)
  merge_maps_lem m k h =
      let (is_map, found) = merge_from_lem [] m k tt h in
      (is_map, found ∙ or_else-none (last_of k m))

  lookup-combine_into :
      (combine : V → V → V) (out item : List (K × V)) (k : K)
      → IsMap item
      → lookup k (combine_into combine out item) ≡ joined combine (lookup k out) (lookup k item)
  lookup-combine_into combine out [] k h = sym (joined-none combine (lookup k out))
  lookup-combine_into combine out ((j, v) ∷ item) k h = elim (Bool-cases (j == k)) [
    | inl p ↦ rw p (
        lookup-combine_into combine (assign j (combined combine (lookup j out) v) out) item k h.1
        ∙ rw
            (
              lookup-absent j k item p h.0,
              lookup-assign k j (combined combine (lookup j out) v) out,
              p,
            )
            (rw (beq_eq j k p) (joined_value combine (lookup k out) v)))
    | inr p ↦ rw p (
        lookup-combine_into combine (assign j (combined combine (lookup j out) v) out) item k h.1
        ∙ rw (lookup-assign k j (combined combine (lookup j out) v) out, p) refl)
  ]

  combine_into-IsMap :
      (combine : V → V → V) (out item : List (K × V))
      → IsMap out
      → IsMap (combine_into combine out item)
  combine_into-IsMap combine out [] h = h
  combine_into-IsMap combine out ((k, v) ∷ item) h =
      combine_into-IsMap combine (assign k (combined combine (lookup k out) v) out) item
        (assign-IsMap k (combined combine (lookup k out) v) out h)

  merge_with_from_lem :
      (combine : V → V → V) (out : List (K × V)) (m : List (List (K × V))) (k : K)
      → IsMap out
      → All IsMap m
      → IsMap (merge_with_from combine out m)
        × (lookup k (merge_with_from combine out m) ≡ joined_all combine (lookup k out) k m)
  merge_with_from_lem combine out [] k h hm = (h, refl)
  merge_with_from_lem combine out (item ∷ m) k h hm =
      let (is_map, found) =
        merge_with_from_lem combine (combine_into combine out item) m k
          (combine_into-IsMap combine out item h) hm.1 in
      (
        is_map,
        found ∙ ap (λ t. joined_all combine t k m) (lookup-combine_into combine out item k hm.0),
      )

  -- MergeMapsWith gives a map, and for a key the values that the arguments have for it, combined from
  -- the first to the last.
  merge_maps_with_lem :
      (combine : V → V → V) (m : List (List (K × V))) (k : K)
      → All IsMap m
      → IsMap (merge_maps_with combine m)
        × (lookup k (merge_maps_with combine m) ≡ joined_all combine none k m)
  merge_maps_with_lem combine m k h = merge_with_from_lem combine [] m k tt h
