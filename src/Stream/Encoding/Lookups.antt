-- ===== src/Stream/Encoding/Lookups.antt =====
-- Which attributes of a message keep their values as pkg/stream/message_encoding.go encodes it.
use mathlib.Core.Path.{subst}
use Prim.Native.String.{String}
use gosoline.Prelude.{
  ◌≡◌, ◌⊎◌, refl, ap, ◌∙◌, inl, inr, true, Option, none, some, List, [], ◌∷◌, lookup, assign,
  lookup-assign, is_some, string_comparable, ◌==◌, Bool-cases, Option-cases, arith, All, beq_eq,
}
use gosoline.Stream.Message.{Attributes}
use gosoline.Stream.Encoding.{
  attribute_encoding, attribute_compression, EncodeHandler, Codec, MessageEncoder, ◌>>=◌, merge_set,
  merge_attributes, handle_encode,
}

-- A handler leaves the two attributes alone that Decode reads.
abbrev pub Spares : {T : Type 0} → EncodeHandler T → Type 0
Spares {T} h =
    (value : T) (before after : Attributes)
    → h.encode value before ≡ some after
    → (lookup attribute_encoding after ≡ lookup attribute_encoding before)
      × (lookup attribute_compression after ≡ lookup attribute_compression before)

pub bind_inv :
    {A B : Type 0} (m : Option A) (f : A → Option B) (b : B)
    → (m >>= f) ≡ some b
    → (a : A) × (m ≡ some a) × (f a ≡ some b)
bind_inv none f b h = cc
bind_inv (some a) f b h = (a, refl, h)

pub bind_some :
    {A B : Type 0} (m : Option A) (f : A → Option B) (a : A) → m ≡ some a → (m >>= f) ≡ f a
bind_some none f a h = cc
bind_some (some b) f a h = ap (λ o. o >>= f) h

clash :
    (k j v : String) (set before : Attributes)
    → lookup j before ≡ none
    → (j == k) ≡ true
    → (is_some (lookup k before) ≡ true) ⊎ (lookup k ((j, v) ∷ set) ≡ none)
    → ⊥
clash k j v set before gone same (inl there) =
    let p : lookup k before ≡ none = subst (λ i. lookup i before ≡ none) (beq_eq j k same) gone in
    cc (there, p)
clash k j v set before gone same (inr absent) = ground (arith, same, absent)

module _ {T : Type 0} (codec : Codec T) (e : MessageEncoder T) where
  -- A key that is there, or that the set does not have, is found as before.
  pub merge_set-lookup :
      (k : String) (set before after : Attributes)
      → merge_set codec e before set ≡ some after
      → (is_some (lookup k before) ≡ true) ⊎ (lookup k set ≡ none)
      → lookup k after ≡ lookup k before
  unfolding merge_set
  merge_set-lookup k [] before after h c = cc
  merge_set-lookup k ((j, v) ∷ set) before after h c = elim (Option-cases (lookup j before)) [
    | inr (w, there) ↦ absurd (ground (arith, there, h))
    | inl gone ↦ elim (Bool-cases (j == k)) [
      | inl same ↦ absurd (clash k j v set before gone same c)
      | inr other ↦
          let kept : lookup k (assign j v before) ≡ lookup k before =
            lookup-assign k j v before ∙ rw other refl in
          merge_set-lookup k set (assign j v before) after (rw gone at h)
            (elim c [ inl p ↦ inl (ap is_some kept ∙ p) | inr p ↦ inr (rw other at p) ])
          ∙ kept
    ]
  ]

  pub merge_attributes-lookup :
      (k : String) (sets : List Attributes) (before after : Attributes)
      → merge_attributes codec e before sets ≡ some after
      → (is_some (lookup k before) ≡ true) ⊎ All (λ set. lookup k set ≡ none) sets
      → lookup k after ≡ lookup k before
  unfolding merge_attributes
  merge_attributes-lookup k [] before after h c = cc
  merge_attributes-lookup k (set ∷ sets) before after h c =
      let (mid, p, q) =
        bind_inv (merge_set codec e before set) (λ m. merge_attributes codec e m sets) after h in
      elim c [
        | inl there ↦
            let kept = merge_set-lookup k set before mid p (inl there) in
            merge_attributes-lookup k sets mid after q (inl (ap is_some kept ∙ there)) ∙ kept
        | inr none_has ↦
            let kept = merge_set-lookup k set before mid p (inr none_has.0) in
            merge_attributes-lookup k sets mid after q (inr none_has.1) ∙ kept
      ]

  pub handle_encode-lookup :
      (hs : List (EncodeHandler T)) (value : T) (before after : Attributes)
      → All Spares hs
      → handle_encode codec e hs value before ≡ some after
      → (lookup attribute_encoding after ≡ lookup attribute_encoding before)
        × (lookup attribute_compression after ≡ lookup attribute_compression before)
  unfolding handle_encode
  handle_encode-lookup [] value before after s h = (cc, cc)
  handle_encode-lookup (x ∷ hs) value before after (s, ss) h =
      let (mid, p, q) =
        bind_inv (x.encode value before) (λ m. handle_encode codec e hs value m) after h in
      let (a, b) = s value before mid p in
      let (aa, bb) = handle_encode-lookup hs value mid after ss q in (aa ∙ a, bb ∙ b)
