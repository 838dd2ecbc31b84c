-- ===== src/Prelude/Assoc.antt =====
-- Go's maps as association lists, and membership in a slice. The order in which Go ranges over a
-- map is not specified: nothing is stated of it.
use mathlib.Core.Path.{◌≡◌, refl, sym, ◌∙◌}
use mathlib.Core.Logic.{inl, inr}
use mathlib.Core.Bool.{Bool, false, ◌||◌}
use mathlib.Core.Option.{Option, none, some}
use mathlib.Core.List.{List, [], ◌∷◌, ◌++◌}
use native.Mathlib.Omega.{arith}
use gosoline.Prelude.Tests.{
  beq_eq, beq_left, beq_clash, beq_swap, Comparable, ◌==◌, if◌then◌else◌, Bool-cases, is_some,
}

module _ {ℓ κ} {K : Type ℓ} {V : Type κ} where
  abbrev pub keys : List (K × V) → List K
  keys [] = []
  keys ((k, v) ∷ m) = k ∷ keys m

module _ {ℓ} {K : Type ℓ} ⦃e : Comparable K⦄ where
  abbrev pub elem : K → List K → Bool
  elem k [] = false
  elem k (j ∷ js) = (j == k) || elem k js

module _ {ℓ} {K : Type ℓ} ⦃e : Comparable K⦄ where
  pub elem-append : (k : K) (xs ys : List K) → elem k (xs ++ ys) ≡ elem k xs || elem k ys
  elem-append k [] ys = refl
  elem-append k (x ∷ xs) ys = ground (arith, elem-append k xs ys)

module _ {ℓ κ} {K : Type ℓ} {V : Type κ} ⦃e : Comparable K⦄ where
  abbrev pub lookup : K → List (K × V) → Option V
  lookup key [] = none
  lookup key (entry ∷ rest) =
      let later = lookup key rest in if entry.0 == key then some entry.1 else later

  -- m[k] = v
  abbrev pub assign : K → V → List (K × V) → List (K × V)
  assign key value [] = (key, value) ∷ []
  assign key value (entry ∷ rest) =
      let kept = entry ∷ assign key value rest in
      if entry.0 == key then (key, value) ∷ rest else kept

module _ {ℓ κ} {K : Type ℓ} {V : Type κ} ⦃e : Comparable K⦄ where
  pub elem-keys : (k : K) (m : List (K × V)) → elem k (keys m) ≡ is_some (lookup k m)
  elem-keys k [] = refl
  elem-keys k ((j, v) ∷ m) = elim (Bool-cases (j == k)) [
    | inl p ↦ rw p
    | inr p ↦ rw p (elem-keys k m)
  ]

module _ {ℓ κ} {K : Type ℓ} {V : Type κ} ⦃e : Comparable K⦄ where
  -- delete(m, k)
  abbrev pub remove_key : K → List (K × V) → List (K × V)
  remove_key k [] = []
  remove_key k ((j, v) ∷ m) = let rest = remove_key k m in if j == k then rest else (j, v) ∷ rest

module _ {ℓ} {K : Type ℓ} ⦃e : Comparable K⦄ where
  -- no key twice
  abbrev pub AreDistinct : List K → Type 0
  AreDistinct [] = Unit
  AreDistinct (k ∷ ks) = (elem k ks ≡ false) × AreDistinct ks

module _ {ℓ κ} {K : Type ℓ} {V : Type κ} ⦃e : Comparable K⦄ where
  abbrev pub IsMap : List (K × V) → Type 0
  IsMap m = AreDistinct (keys m)

module _ {ℓ κ} {K : Type ℓ} {V : Type κ} ⦃e : Comparable K⦄ where
  pub lookup-assign :
      (k j : K) (v : V) (m : List (K × V))
      → lookup k (assign j v m) ≡ (if j == k then some v else lookup k m)
  lookup-assign k j v [] = refl
  lookup-assign k j v ((i, w) ∷ m) = elim (Bool-cases (i == j)) [
    | inl p ↦ rw p (elim (Bool-cases (j == k)) [
      | inl q ↦ rw q refl
      | inr q ↦ rw (q, beq_left i j k p, q) refl
    ])
    | inr p ↦ elim (Bool-cases (i == k)) [
      | inl q ↦ rw (p, q, beq_clash i j k q p) refl
      | inr q ↦ rw (p, q) (lookup-assign k j v m)
    ]
  ]

  elem-keys-assign :
      (k j : K) (v : V) (m : List (K × V))
      → elem k (keys (assign j v m)) ≡ (j == k) || elem k (keys m)
  elem-keys-assign k j v [] = refl
  elem-keys-assign k j v ((i, w) ∷ m) = elim (Bool-cases (i == j)) [
    | inl p ↦ rw (p, beq_left i j k p) (ground arith)
    | inr p ↦ rw p (ground (arith, elem-keys-assign k j v m))
  ]

  pub assign-IsMap : (k : K) (v : V) (m : List (K × V)) → IsMap m → IsMap (assign k v m)
  assign-IsMap k v [] h = (refl, tt)
  assign-IsMap k v ((j, w) ∷ m) h = elim (Bool-cases (j == k)) [
    | inl p ↦ rw (p, sym (beq_eq j k p)) h
    | inr p ↦ rw p (elem-keys-assign j k v m ∙ rw (beq_swap j k p) h.0, assign-IsMap k v m h.1)
  ]

  pub lookup-remove_key :
      (k j : K) (m : List (K × V))
      → lookup k (remove_key j m) ≡ (if j == k then none else lookup k m)
  lookup-remove_key k j [] = ground arith
  lookup-remove_key k j ((i, w) ∷ m) = elim (Bool-cases (i == j)) [
    | inl p ↦ rw p (elim (Bool-cases (j == k)) [
      | inl q ↦ rw q (lookup-remove_key k j m ∙ rw q refl)
      | inr q ↦ rw (q, beq_left i j k p, q) (lookup-remove_key k j m ∙ rw q refl)
    ])
    | inr p ↦ elim (Bool-cases (i == k)) [
      | inl q ↦ rw (p, q, beq_clash i j k q p) refl
      | inr q ↦ rw (p, q) (lookup-remove_key k j m)
    ]
  ]
