-- ===== src/Funk/Maps.antt =====
-- The map functions of pkg/funk/maps.go. A map is the list of its entries; Go does not promise an
-- order of them, and what depends on it is not stated.
pub mod Merge
pub mod Select
use gosoline.Prelude.{
  Bool, not, ◌&&◌, ◌||◌, Option, none, some, List, [], ◌∷◌, ◌++◌, lookup, assign, Comparable, ◌==◌,
  if◌then◌else◌, is_some,
}
use gosoline.Funk.Slice.{all}

module _ {κ} {V : Type κ} where
  abbrev pub combined : (V → V → V) → Option V → V → V
  combined combine none v = v
  combined combine (some existing) v = combine existing v

module _ {ℓ κ} {K : Type ℓ} {V : Type κ} ⦃e : Comparable K⦄ where
  -- `for k, v := range item { out[k] = v }`
  abbrev pub copy_into : List (K × V) → List (K × V) → List (K × V)
  copy_into out [] = out
  copy_into out ((k, v) ∷ item) = copy_into (assign k v out) item

  abbrev pub merge_from : List (K × V) → List (List (K × V)) → List (K × V)
  merge_from out [] = out
  merge_from out (item ∷ m) = merge_from (copy_into out item) m

  abbrev pub merge_maps : List (List (K × V)) → List (K × V)
  merge_maps m = merge_from [] m

  abbrev pub combine_into : (V → V → V) → List (K × V) → List (K × V) → List (K × V)
  combine_into combine out [] = out
  combine_into combine out ((k, v) ∷ item) =
      combine_into combine (assign k (combined combine (lookup k out) v) out) item

  abbrev pub merge_with_from : (V → V → V) → List (K × V) → List (List (K × V)) → List (K × V)
  merge_with_from combine out [] = out
  merge_with_from combine out (item ∷ m) = merge_with_from combine (combine_into combine out item) m

  abbrev pub merge_maps_with : (V → V → V) → List (List (K × V)) → List (K × V)
  merge_maps_with combine m = merge_with_from combine [] m

  -- `for k, v := range m { if f(k, v) { result[k] = v } }`
  abbrev pub select_into : (K → V → Bool) → List (K × V) → List (K × V) → List (K × V)
  select_into f result [] = result
  select_into f result ((k, v) ∷ m) =
      if f k v then select_into f (assign k v result) m else select_into f result m

  abbrev pub map_filter : List (K × V) → (K → V → Bool) → List (K × V)
  map_filter m f = select_into f [] m

  abbrev pub has_key : K → List (K × V) → Bool
  has_key k m = is_some (lookup k m)

  abbrev pub intersect_maps : List (K × V) → List (K × V) → List (List (K × V)) → List (K × V)
  intersect_maps m1 m2 ms = select_into (λ k v. has_key k m2 && all ms (λ m3. has_key k m3)) [] m1

module _ {ℓ κ μ} {K : Type ℓ} {V1 : Type κ} {V2 : Type μ} ⦃e : Comparable K⦄ where
  abbrev pub difference_maps : List (K × V1) → List (K × V2) → List (K × V1) × List (K × V2)
  difference_maps left right = (
    select_into (λ k v. not (has_key k right)) [] left,
    select_into (λ k v. not (has_key k left)) [] right,
  )

module _ {ℓ κ} {K : Type ℓ} {V : Type κ} ⦃e : Comparable K⦄ where
  abbrev populate_into : (K → V) → List (K × V) → List K → List (K × V)
  populate_into generator result [] = result
  populate_into generator result (key ∷ rest) =
      populate_into generator (assign key (generator key) result) rest

  abbrev populate_map : V → List K → List (K × V)
  populate_map value ks = populate_into (λ key. value) [] ks

  abbrev populate_map_with : (K → V) → List K → List (K × V)
  populate_map_with generator ks = populate_into generator [] ks

module _ {ℓ κ μ} {K : Type ℓ} {V1 : Type κ} {V2 : Type μ} ⦃e : Comparable K⦄ where
  abbrev map_values_into : (V1 → V2) → List (K × V2) → List (K × V1) → List (K × V2)
  map_values_into f r [] = r
  map_values_into f r ((k, v) ∷ m) = map_values_into f (assign k (f v) r) m

  abbrev map_values : List (K × V1) → (V1 → V2) → List (K × V2)
  map_values m f = map_values_into f [] m
