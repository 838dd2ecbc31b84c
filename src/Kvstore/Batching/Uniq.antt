-- ===== src/Kvstore/Batching/Uniq.antt =====
-- What `UniqKeys` of pkg/kvstore/uniq.go keeps.
use Prim.Native.String.{String}
use text.Mathlib.TextEquality.{eq_iff as str_eq_iff}
use gosoline.Prelude.{
  ◌≡◌, refl, ◌∙◌, inl, inr, Bool, true, false, not, ◌&&◌, Option, none, some, List, [], ◌∷◌, arith,
  Bool-cases, Option-cases, is_some, elem, string_comparable, beq_refl,
}
use gosoline.Kvstore.Batching.{prepend, uniq_from, uniq_keys}

-- No text occurs twice.
abbrev Distinct : List String → Type 0
Distinct [] = Unit
Distinct (x ∷ xs) = (elem x xs ≡ false) × Distinct xs

module _ {K : Type 0} (cast : K → Option String) where
  -- The texts of the keys, by `CastKeyToString`.
  abbrev pub texts : List K → List String
  texts [] = []
  texts (k ∷ ks) = let rest = texts ks in elim (cast k) [ none ↦ rest | some text ↦ text ∷ rest ]

  -- `us` has the texts of `all` that are not in `seen`, each once.
  abbrev Kept : List String → List String → Option (List K) → Type 0
  Kept seen all none = Unit
  Kept seen all (some us) =
      ((t : String) → elem t (texts us) ≡ not (elem t seen) && elem t all) × Distinct (texts us)

  Kept-skip :
      (text : String) (seen all : List String) (r : Option (List K))
      → elem text seen ≡ true
      → Kept seen all r
      → Kept seen (text ∷ all) r
  Kept-skip text seen all none m h = tt
  Kept-skip text seen all (some us) m h =
      (λ t. ground (arith, h.0 t, str_eq_iff text t, same t), h.1)
    where
      same : (t : String) → text ≡ t → elem t seen ≡ true
      same t e = rw (← e) m

  Kept-keep :
      (k : K) (text : String) (seen all : List String) (r : Option (List K))
      → cast k ≡ some text
      → elem text seen ≡ false
      → Kept (text ∷ seen) all r
      → Kept seen (text ∷ all) (prepend k r)
  Kept-keep k text seen all none c m h = tt
  Kept-keep k text seen all (some us) c m h =
      rw (c, texts)
        (λ t. ground (arith, h.0 t, str_eq_iff text t, same t), (h.0 text ∙ rw beq_refl, h.1))
    where
      same : (t : String) → text ≡ t → elem t seen ≡ false
      same t e = rw (← e) m

  uniq_from_lem : (seen : List String) (ks : List K) → Kept seen (texts ks) (uniq_from cast seen ks)
  unfolding uniq_from
  uniq_from_lem seen [] = (λ t. ground arith, tt)
  uniq_from_lem seen (k ∷ ks) = elim (Option-cases (cast k)) [
    | inl bad ↦ rw (bad, uniq_from, texts) tt
    | inr (text, fine) ↦ elim (Bool-cases (elem text seen)) [
      | inl old ↦
          rw (fine, old, uniq_from, texts)
            (Kept-skip text seen (texts ks) _ old (uniq_from_lem seen ks))
      | inr new ↦
          rw (fine, new, uniq_from, texts)
            (Kept-keep k text seen (texts ks) _ fine new (uniq_from_lem (text ∷ seen) ks))
    ]
  ]

  -- Every key has a text.
  abbrev pub texts_all : List K → Bool
  texts_all [] = true
  texts_all (k ∷ ks) = is_some (cast k) && texts_all ks

  IsSome-prepend : (k : K) (r : Option (List K)) → is_some (prepend k r) ≡ is_some r
  IsSome-prepend k none = refl
  IsSome-prepend k (some us) = refl

  uniq_from-IsSome :
      (seen : List String) (ks : List K) → is_some (uniq_from cast seen ks) ≡ texts_all ks
  unfolding uniq_from
  uniq_from-IsSome seen [] = refl
  uniq_from-IsSome seen (k ∷ ks) = elim (Option-cases (cast k)) [
    | inl bad ↦ rw (bad, uniq_from)
    | inr (text, fine) ↦ elim (Bool-cases (elem text seen)) [
      | inl old ↦ rw (fine, old, uniq_from) (uniq_from-IsSome seen ks)
      | inr new ↦
          rw (fine, new, uniq_from)
            (IsSome-prepend k (uniq_from cast (text ∷ seen) ks) ∙ uniq_from-IsSome (text ∷ seen) ks)
    ]
  ]

  -- UniqKeys fails exactly when some key has no text. The keys that it keeps have the texts of the
  -- keys that it is given, and no two of them have one text.
  pub uniq_keys_lem :
      (ks : List K)
      → (is_some (uniq_keys cast ks) ≡ texts_all ks)
        × ((us : List K)
            → uniq_keys cast ks ≡ some us
            → ((t : String) → elem t (texts us) ≡ elem t (texts ks)) × Distinct (texts us))
  unfolding uniq_keys
  uniq_keys_lem ks = (uniq_from-IsSome [] ks, λ us h. rw h at (uniq_from_lem [] ks))
