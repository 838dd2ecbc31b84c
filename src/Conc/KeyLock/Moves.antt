-- ===== src/Conc/KeyLock/Moves.antt =====
-- That the steps of pkg/conc/key_lock.go keep the counts.
use mathlib.Core.Bool.{true≢false}
use mathlib.Core.Path.{subst}
use gosoline.Prelude.{
  ℕ, ◌≤◌, ◌<◌, ◌≡◌, refl, sym, ap, ◌∙◌, ◌⊎◌, inl, inr, true, false, none, some, List, [], ◌∷◌,
  arith, length, elem, eqb, lookup, assign, lookup-assign, Comparable, ◌==◌, Bool-cases,
  Option-cases, beq_refl, beq_eq, nat_comparable, if◌then◌else◌,
}
use gosoline.Conc.KeyLock.Counts.{
  Uses, Counts, AreUsed, Uses-moved, holding_moved, outside-Uses, is_holding, address_of,
  users_moved,
}
use gosoline.Conc.KeyLock.{Phase, State, put_at, entry_of, join, acquire}

module _ {K : Type 0} ⦃e : Comparable K⦄ where
  not_listed :
      (s : State K) (users : ℕ → List ℕ) (g a : ℕ)
      → Counts s users
      → s.phase g ≡ Phase.outside
      → elem g (users a) ≡ false
  not_listed s users g a c out = elim (Bool-cases (elem g (users a))) [
    | inl p ↦ let (k, u) = c.unlisted g a p in absurd (outside-Uses (s.phase g) k a out u)
    | inr p ↦ p
  ]

  pub join-Counts :
      (s : State K) (users : ℕ → List ℕ) (g : ℕ) (key : K) (a : ℕ)
      → Counts s users
      → lookup key s.entries ≡ some a
      → s.phase g ≡ Phase.outside
      → Counts (join g key a s) (put_at a (g ∷ users a) users)
  unfolding join
  join-Counts s users g key a c found out = record {
    counted = λ b. elim (Bool-cases (eqb a b)) [
      | inl p ↦ rw p (omega (arith, c.counted a))
      | inr p ↦ rw p (c.counted b)
    ];
    distinct = λ b. elim (Bool-cases (eqb a b)) [
      | inl p ↦ rw p (not_listed s users g a c out, c.distinct a)
      | inr p ↦ rw p (c.distinct b)
    ];
    listed = λ h k b u. elim (Uses-moved (Phase.waiting key a) s.phase g h k b u) [
      | inl (p, (kk, ab)) ↦ rw (sym ab, beq_refl a, p) refl
      | inr (p, v) ↦ elim (Bool-cases (eqb a b)) [
        | inl q ↦ rw (q, p) (rw (beq_eq a b q) (c.listed h k b v))
        | inr q ↦ rw q (c.listed h k b v)
      ]
    ];
    unlisted = λ h b u. elim (users_moved a b g h users u) [
      | inl (p, q) ↦ (key, rw q (refl, beq_eq a b p))
      | inr v ↦ elim (Bool-cases (eqb g h)) [
        | inl q ↦ absurd (
            true≢false (
              sym v
              ∙ ap (λ t. elem t (users b)) (sym (beq_eq g h q))
              ∙ not_listed s users g b c out))
        | inr q ↦ let (k, w) = c.unlisted h b v in (k, rw q w)
      ]
    ];
    mapped = λ h k b u. elim (Uses-moved (Phase.waiting key a) s.phase g h k b u) [
      | inl (p, (kk, ab)) ↦ rw (sym kk, sym ab) found
      | inr (p, v) ↦ c.mapped h k b v
    ];
    fresh = c.fresh;
    apart = c.apart;
    locked = λ h k b u. elim (holding_moved (Phase.waiting key a) s.phase g h k b u) [
      | inl (p, w) ↦ absurd (true≢false (sym (ap is_holding w)))
      | inr (p, w) ↦ elim (Bool-cases (eqb a b)) [
        | inl q ↦ rw q (rw (beq_eq a b q) (c.locked h k b w))
        | inr q ↦ rw q (c.locked h k b w)
      ]
    ];
  }

  pub acquire-Counts :
      (s : State K) (users : ℕ → List ℕ) (g : ℕ) (key : K) (a : ℕ)
      → Counts s users
      → s.phase g ≡ Phase.waiting key a
      → (s.heap a).locked_by ≡ none
      → Counts (acquire g key a s) users
  unfolding acquire
  acquire-Counts s users g key a c at free = record {
    counted = λ b. elim (Bool-cases (eqb a b)) [
      | inl p ↦ rw p (ap (λ t. (s.heap t).ref_count) (beq_eq a b p) ∙ c.counted b)
      | inr p ↦ rw p (c.counted b)
    ];
    distinct = c.distinct;
    listed = λ h k b u. c.listed h k b (used_before h k b u);
    unlisted = λ h b u.
        let (k, v) = c.unlisted h b u in
        (
          k,
          elim (Bool-cases (eqb g h)) [
            | inl p ↦ rw p (subst (λ t. Uses t k b) (ap s.phase (sym (beq_eq g h p)) ∙ at) v)
            | inr p ↦ rw p v
          ],
        );
    mapped = λ h k b u. c.mapped h k b (used_before h k b u);
    fresh = c.fresh;
    apart = c.apart;
    locked = λ h k b u. elim (holding_moved (Phase.holding key a) s.phase g h k b u) [
      | inl (p, w) ↦ rw (sym (ap address_of w), beq_refl a) (ap some (beq_eq g h p))
      | inr (p, w) ↦ elim (Bool-cases (eqb a b)) [
        | inl q ↦
            let held : (s.heap a).locked_by ≡ some h = rw (beq_eq a b q) (c.locked h k b w) in
            absurd (ground (arith, free, held))
        | inr q ↦ rw q (c.locked h k b w)
      ]
    ];
  }
    where
      used_before :
          (h : ℕ) (k : K) (b : ℕ)
          → Uses (put_at g (Phase.holding key a) s.phase h) k b
          → Uses (s.phase h) k b
      used_before h k b u = elim (Uses-moved (Phase.holding key a) s.phase g h k b u) [
        | inl (p, (kk, ab)) ↦ rw (sym (beq_eq g h p), at) (kk, ab)
        | inr (p, v) ↦ v
      ]

  -- What a lookup finds after a new address was assigned.
  assigned :
      (key k : K) (n b : ℕ) (m : List (K × ℕ))
      → lookup k (assign key n m) ≡ some b
      → ((key ≡ k) × (n ≡ b)) ⊎ (lookup k m ≡ some b)
  assigned key k n b m h = elim (Bool-cases (key == k)) [
    | inl p ↦ inl (beq_eq key k p, ground (arith, lookup-assign k key n m, p, h))
    | inr p ↦ inr (ground (arith, lookup-assign k key n m, p, h))
  ]

  kept_assigned :
      (key k : K) (n b : ℕ) (m : List (K × ℕ))
      → lookup key m ≡ none
      → lookup k m ≡ some b
      → lookup k (assign key n m) ≡ some b
  kept_assigned key k n b m gone h = elim (Bool-cases (key == k)) [
    | inl p ↦
        let clash : lookup key m ≡ some b = rw (beq_eq key k p) h in
        absurd (ground (arith, gone, clash))
    | inr p ↦ ground (arith, lookup-assign k key n m, p, h)
  ]

  -- The entry of a key is in the map, counts as before or not at all, and no other entry is new.
  pub entry_of-Counts :
      (s : State K) (users : ℕ → List ℕ) (key : K)
      → Counts s users
      → AreUsed s users
      → let (a, t) = entry_of key s in
        (users' : ℕ → List ℕ) × Counts t users'
        × (lookup key t.entries ≡ some a)
        × ((k : K) (b : ℕ) → lookup k t.entries ≡ some b → (a ≡ b) ⊎ (1 ≤ length (users' b)))
        × ((g : ℕ) → t.phase g ≡ s.phase g)
  unfolding entry_of
  entry_of-Counts s users key c used = elim (Option-cases (lookup key s.entries)) [
    | inr (a, found) ↦ rw (entry_of, found) (users, c, found, λ k b h. inr (used k b h), λ g. refl)
    | inl gone ↦
        rw (entry_of, gone)
          (
            put_at s.next_address [] users,
            record {
              counted = λ b. elim (Bool-cases (eqb s.next_address b)) [
                | inl p ↦ rw p refl
                | inr p ↦ rw p (c.counted b)
              ];
              distinct = λ b. elim (Bool-cases (eqb s.next_address b)) [
                | inl p ↦ rw p tt
                | inr p ↦ rw p (c.distinct b)
              ];
              listed = λ h k b u. rw (older h k b u) (c.listed h k b u);
              unlisted = λ h b u. elim (Bool-cases (eqb s.next_address b)) [
                | inl p ↦
                    absurd (
                      true≢false (sym (subst (λ t. elem h (if t then [] else users b) ≡ true) p u)))
                | inr p ↦
                    c.unlisted h b (subst (λ t. elem h (if t then [] else users b) ≡ true) p u)
              ];
              mapped =
                  λ h k b u. kept_assigned key k s.next_address b s.entries gone (c.mapped h k b u);
              fresh = λ k b h. elim (assigned key k s.next_address b s.entries h) [
                | inl (p, q) ↦ omega (arith, q)
                | inr p ↦ omega (arith, c.fresh k b p)
              ];
              apart = λ j k b h h'. elim (assigned key j s.next_address b s.entries h) [
                | inl (p, q) ↦ elim (assigned key k s.next_address b s.entries h') [
                  | inl (p', q') ↦ sym p ∙ p'
                  | inr p' ↦ absurd (omega (arith, q, c.fresh k b p'))
                ]
                | inr p ↦ elim (assigned key k s.next_address b s.entries h') [
                  | inl (p', q') ↦ absurd (omega (arith, q', c.fresh j b p))
                  | inr p' ↦ c.apart j k b p p'
                ]
              ];
              locked = λ h k b u. rw (older h k b (rw u (refl, refl))) (c.locked h k b u);
            },
            lookup-assign key key s.next_address s.entries ∙ rw (beq_refl key) refl,
            λ k b h. elim (assigned key k s.next_address b s.entries h) [
              | inl (p, q) ↦ inl q
              | inr p ↦ inr (rw (newer b (c.fresh k b p)) (used k b p))
            ],
            λ g. refl,
          )
  ]
    where
      newer : (b : ℕ) → b < s.next_address → eqb s.next_address b ≡ false
      newer b h = ground arith

      older : (h : ℕ) (k : K) (b : ℕ) → Uses (s.phase h) k b → eqb s.next_address b ≡ false
      older h k b u = newer b (c.fresh k b (c.mapped h k b u))
