-- ===== src/Conc/KeyLock/Users.antt =====
-- The users of an entry of pkg/conc/key_lock.go, as a list of goroutines.
use mathlib.Core.Bool.{true≢false}
use gosoline.Prelude.{
  ℕ, ◌+◌, ◌≡◌, refl, sym, ap, ◌∙◌, inl, inr, true, false, ◌||◌, List, [], ◌∷◌, arith, length, elem,
  eqb, AreDistinct, Bool-cases, beq_eq, beq_left, beq_swap, nat_comparable, if◌then◌else◌,
}

abbrev pub remove_one : ℕ → List ℕ → List ℕ
remove_one g [] = []
remove_one g (h ∷ hs) = let rest = remove_one g hs in if eqb h g then hs else h ∷ rest

pub length-remove_one :
    (g : ℕ) (hs : List ℕ) → elem g hs ≡ true → length (remove_one g hs) + 1 ≡ length hs
length-remove_one g [] p = absurd (true≢false (sym p))
length-remove_one g (h ∷ hs) p = elim (Bool-cases (eqb h g)) [
  | inl q ↦ rw q (omega arith)
  | inr q ↦ rw q (omega (arith, length-remove_one g hs (ground (arith, p, q))))
]

pub elem-remove_one :
    (g h : ℕ) (hs : List ℕ) → eqb g h ≡ false → elem h (remove_one g hs) ≡ elem h hs
elem-remove_one g h [] p = refl
elem-remove_one g h (i ∷ hs) p = elim (Bool-cases (eqb i g)) [
  | inl q ↦ rw q (rw (beq_left i g h q ∙ p) refl)
  | inr q ↦ rw q (ap (λ t. eqb i h || t) (elem-remove_one g h hs p))
]

pub remove_one-AreDistinct :
    (g : ℕ) (hs : List ℕ)
    → AreDistinct hs
    → AreDistinct (remove_one g hs) × (elem g (remove_one g hs) ≡ false)
remove_one-AreDistinct g [] d = (tt, refl)
remove_one-AreDistinct g (h ∷ hs) d = elim (Bool-cases (eqb h g)) [
  | inl q ↦ rw q (d.1, ap (λ t. elem t hs) (sym (beq_eq h g q)) ∙ d.0)
  | inr q ↦ rw q (
    (elem-remove_one g h hs (beq_swap h g q) ∙ d.0, (remove_one-AreDistinct g hs d.1).0),
    rw q (remove_one-AreDistinct g hs d.1).1,
  )
]
