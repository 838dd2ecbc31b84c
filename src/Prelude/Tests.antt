-- ===== src/Prelude/Tests.antt =====
-- Boolean tests on the native numbers, the conditional, and equality as an interface.
use Prim.Native.Nat.{ℕ, compare, Ordering}
use Prim.Native.String.{String}
use mathlib.Core.Path.{◌≡◌, refl, sym, ap, ◌∙◌}
use mathlib.Core.Logic.{◌≢◌, ◌↔◌, ◌⊎◌, inl, inr}
use mathlib.Core.Bool.{Bool, true, false, true≢false}
use mathlib.Core.Option.{Option, none, some}
use native.Mathlib.Omega.{arith}
use text.Mathlib.Text.{◌==◌ as text_eq}
use text.Mathlib.TextEquality.{eq_iff as text_eq_iff}

abbrev pub ltb : ℕ → ℕ → Bool
ltb a b = elim (compare a b) [ Ordering.lt ↦ true | _ ↦ false ]

abbrev pub leb : ℕ → ℕ → Bool
leb a b = elim (compare a b) [ Ordering.gt ↦ false | _ ↦ true ]

abbrev pub eqb : ℕ → ℕ → Bool
eqb a b = elim (compare a b) [ Ordering.eq ↦ true | _ ↦ false ]

infix 1 if◌then◌else◌
abbrev pub if◌then◌else◌ {ℓ} : {A : Type ℓ} → Bool → A → A → A
if true then x else y = x
if false then x else y = y

pub eqb_iff : (a b : ℕ) → (eqb a b ≡ true) ↔ (a ≡ b)
eqb_iff a b = ground arith

-- To split on a computed value and keep the equation.
pub Bool-cases : (b : Bool) → (b ≡ true) ⊎ (b ≡ false)
Bool-cases true = inl refl
Bool-cases false = inr refl

pub Option-cases {ℓ} : {A : Type ℓ} (o : Option A) → (o ≡ none) ⊎ ((a : A) × (o ≡ some a))
Option-cases none = inl refl
Option-cases (some a) = inr (a, refl)

abbrev pub is_some {ℓ} : {A : Type ℓ} → Option A → Bool
is_some none = false
is_some (some a) = true

-- Go's `comparable`: a test of equality that is exact.
pub record Comparable {ℓ} (T : Type ℓ) : Type ℓ where
  pub equals : T → T → Bool
  pub equals_iff : (x y : T) → (equals x y ≡ true) ↔ (x ≡ y)

instance abbrev pub string_comparable : Comparable String
string_comparable = record { equals = text_eq; equals_iff = text_eq_iff }

instance abbrev pub nat_comparable : Comparable ℕ
nat_comparable = record { equals = eqb; equals_iff = eqb_iff }

infix 50 ◌==◌
abbrev pub ◌==◌ {ℓ} : {T : Type ℓ} → ⦃c : Comparable T⦄ → T → T → Bool
◌==◌ ⦃c⦄ = c.equals

module _ {ℓ} {A : Type ℓ} ⦃e : Comparable A⦄ where
  pub beq_refl : (a : A) → (a == a) ≡ true
  beq_refl a = (e.equals_iff a a).1 refl

  pub beq_eq : (a b : A) → (a == b) ≡ true → a ≡ b
  beq_eq a b h = (e.equals_iff a b).0 h

  -- equal to the same, and different from what its equal differs from
  pub beq_left : (a b c : A) → (a == b) ≡ true → (a == c) ≡ (b == c)
  beq_left a b c h = ap (λ t. t == c) (beq_eq a b h)

  pub beq_clash : (a b c : A) → (a == c) ≡ true → (a == b) ≡ false → (b == c) ≡ false
  beq_clash a b c p q = elim (Bool-cases (b == c)) [
    | inl r ↦
        absurd
          (true≢false (sym (beq_refl a) ∙ ap (λ t. a == t) (beq_eq a c p ∙ sym (beq_eq b c r)) ∙ q))
    | inr r ↦ r
  ]

  pub beq_swap : (a b : A) → (a == b) ≡ false → (b == a) ≡ false
  beq_swap a b q = beq_clash a b a (beq_refl a) q

  pub beq_ne : (a b : A) → a ≢ b → (a == b) ≡ false
  beq_ne a b h = elim (Bool-cases (a == b)) [
    | inl p ↦ absurd (h ((e.equals_iff a b).0 p))
    | inr p ↦ p
  ]
