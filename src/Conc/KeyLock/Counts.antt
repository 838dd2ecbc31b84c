-- ===== src/Conc/KeyLock/Counts.antt =====
-- That each entry of pkg/conc/key_lock.go counts the goroutines that use it.
use mathlib.Core.Path.{subst}
use gosoline.Prelude.{
  ℕ, ◌≤◌, ◌<◌, ◌≡◌, sym, ap, ◌∙◌, ◌⊎◌, inl, inr, Bool, true, false, some, List, ◌∷◌, arith, length,
  elem, eqb, lookup, AreDistinct, Comparable, Bool-cases, beq_eq, nat_comparable, if◌then◌else◌,
}
use gosoline.Conc.KeyLock.{Phase, State, put_at}

module _ {K : Type 0} where
  -- The goroutine waits for the key or holds it, by the entry at the address.
  abbrev pub Uses : Phase K → K → ℕ → Type 0
  Uses Phase.outside k a = ⊥
  Uses (Phase.waiting j b) k a = (j ≡ k) × (b ≡ a)
  Uses (Phase.holding j b) k a = (j ≡ k) × (b ≡ a)

module _ {K : Type 0} ⦃e : Comparable K⦄ where
  -- The entries count their users, who find them in the map, and a held entry is locked by its holder.
  pub record Counts (s : State K) (users : ℕ → List ℕ) : Type 0 where
    pub counted : (a : ℕ) → (s.heap a).ref_count ≡ length (users a)
    pub distinct : (a : ℕ) → AreDistinct (users a)
    pub listed : (g : ℕ) (k : K) (a : ℕ) → Uses (s.phase g) k a → elem g (users a) ≡ true
    pub unlisted : (g a : ℕ) → elem g (users a) ≡ true → (k : K) × Uses (s.phase g) k a
    pub mapped : (g : ℕ) (k : K) (a : ℕ) → Uses (s.phase g) k a → lookup k s.entries ≡ some a
    pub fresh : (k : K) (a : ℕ) → lookup k s.entries ≡ some a → a < s.next_address
    pub apart :
        (j k : K) (a : ℕ) → lookup j s.entries ≡ some a → lookup k s.entries ≡ some a → j ≡ k
    pub locked :
        (g : ℕ) (k : K) (a : ℕ) → s.phase g ≡ Phase.holding k a → (s.heap a).locked_by ≡ some g

  -- Every entry of the map has a user.
  abbrev pub AreUsed : State K → (ℕ → List ℕ) → Type 0
  AreUsed s users = (k : K) (a : ℕ) → lookup k s.entries ≡ some a → 1 ≤ length (users a)

module _ {K : Type 0} where
  -- Who uses what after one goroutine moved, and who is listed after one was added.
  pub Uses-moved :
      (ph : Phase K) (f : ℕ → Phase K) (g h : ℕ) (k : K) (b : ℕ)
      → Uses (put_at g ph f h) k b
      → ((eqb g h ≡ true) × Uses ph k b) ⊎ ((eqb g h ≡ false) × Uses (f h) k b)
  Uses-moved ph f g h k b u = elim (Bool-cases (eqb g h)) [
    | inl p ↦ inl (p, subst (λ t. Uses (if t then ph else f h) k b) p u)
    | inr p ↦ inr (p, subst (λ t. Uses (if t then ph else f h) k b) p u)
  ]

  pub holding_moved :
      (ph : Phase K) (f : ℕ → Phase K) (g h : ℕ) (k : K) (b : ℕ)
      → put_at g ph f h ≡ Phase.holding k b
      → ((eqb g h ≡ true) × (ph ≡ Phase.holding k b))
        ⊎ ((eqb g h ≡ false) × (f h ≡ Phase.holding k b))
  holding_moved ph f g h k b u = elim (Bool-cases (eqb g h)) [
    | inl p ↦ inl (p, subst (λ t. (if t then ph else f h) ≡ Phase.holding k b) p u)
    | inr p ↦ inr (p, subst (λ t. (if t then ph else f h) ≡ Phase.holding k b) p u)
  ]

  pub outside-Uses : (ph : Phase K) (k : K) (b : ℕ) → ph ≡ Phase.outside → Uses ph k b → ⊥
  outside-Uses ph k b e u = subst (λ t. Uses t k b) e u

  abbrev pub is_holding : Phase K → Bool
  is_holding (Phase.holding k a) = true
  is_holding Phase.outside = false
  is_holding (Phase.waiting k a) = false

  abbrev pub address_of : Phase K → ℕ
  address_of (Phase.holding k a) = a
  address_of Phase.outside = 0
  address_of (Phase.waiting k a) = a

pub users_moved :
    (a b g h : ℕ) (users : ℕ → List ℕ)
    → elem h (put_at a (g ∷ users a) users b) ≡ true
    → ((eqb a b ≡ true) × (eqb g h ≡ true)) ⊎ (elem h (users b) ≡ true)
users_moved a b g h users u = elim (Bool-cases (eqb a b)) [
  | inl p ↦ elim (Bool-cases (eqb g h)) [
    | inl q ↦ inl (p, q)
    | inr q ↦ inr (
        ap (λ t. elem h (users t)) (sym (beq_eq a b p))
        ∙ ground (arith, q, subst (λ t. elem h (if t then g ∷ users a else users b) ≡ true) p u))
  ]
  | inr p ↦ inr (subst (λ t. elem h (if t then g ∷ users a else users b) ≡ true) p u)
]
