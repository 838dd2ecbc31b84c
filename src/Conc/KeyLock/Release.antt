-- ===== src/Conc/KeyLock/Release.antt =====
-- That the UnlockFunc of pkg/conc/key_lock.go keeps the counts, and removes the entry with its last user.
use mathlib.Core.Bool.{true≢false}
use mathlib.Core.Path.{subst}
use gosoline.Prelude.{
  ℕ, ◌-◌, ◌≤◌, ◌≡◌, refl, sym, ap, ◌∙◌, inl, inr, Bool, true, false, some, List, [], ◌∷◌, arith,
  length, elem, eqb, lookup, remove_key, lookup-remove_key, Comparable, ◌==◌, Bool-cases, beq_refl,
  beq_eq, nat_comparable, if◌then◌else◌,
}
use gosoline.Conc.KeyLock.Counts.{Uses, Counts, AreUsed, Uses-moved, holding_moved, is_holding}
use gosoline.Conc.KeyLock.Users.{
  length-remove_one, elem-remove_one, remove_one-AreDistinct, remove_one,
}
use gosoline.Conc.KeyLock.{Phase, State, put_at, release}

abbrev pub release_users : (g a : ℕ) → (ℕ → List ℕ) → ℕ → List ℕ
release_users g a users = put_at a (remove_one g (users a)) users

one_less :
    (g : ℕ) (hs : List ℕ) (n : ℕ)
    → n ≡ length hs
    → elem g hs ≡ true
    → n - 1 ≡ length (remove_one g hs)
one_less g hs n p q = omega (arith, p, length-remove_one g hs q)

has_some : (h : ℕ) (hs : List ℕ) → elem h hs ≡ true → 1 ≤ length hs
has_some h [] p = absurd (true≢false (sym p))
has_some h (i ∷ hs) p = omega arith

module _ {K : Type 0} ⦃e : Comparable K⦄ where
  -- What is found after the removal, if there was one, was there before.
  found_before :
      (gone : Bool) (key k : K) (b : ℕ) (m : List (K × ℕ))
      → lookup k (if gone then remove_key key m else m) ≡ some b
      → (lookup k m ≡ some b) × ((gone ≡ true) → (key == k) ≡ false)
  found_before false key k b m h = (h, λ p. absurd (true≢false (sym p)))
  found_before true key k b m h = elim (Bool-cases (key == k)) [
    | inl p ↦ absurd (ground (arith, lookup-remove_key k key m, p, h))
    | inr p ↦ (ground (arith, lookup-remove_key k key m, p, h), λ _. p)
  ]

  found_after :
      (gone : Bool) (key k : K) (b : ℕ) (m : List (K × ℕ))
      → lookup k m ≡ some b
      → ((gone ≡ true) → (key == k) ≡ false)
      → lookup k (if gone then remove_key key m else m) ≡ some b
  found_after false key k b m h q = h
  found_after true key k b m h q = lookup-remove_key k key m ∙ rw (q refl) h

  module _ (s : State K) (users : ℕ → List ℕ) (g : ℕ) (key : K) (a : ℕ) (c : Counts s users)
      (used : AreUsed s users) (at : s.phase g ≡ Phase.holding key a) where
    g-Uses : Uses (s.phase g) key a
    g-Uses = rw at (refl, refl)

    left : (s.heap a).ref_count - 1 ≡ length (remove_one g (users a))
    left = one_less g (users a) ((s.heap a).ref_count) (c.counted a) (c.listed g key a g-Uses)

    -- Who else uses the entry is counted after the removal.
    other_counts :
        (h : ℕ) (k : K) (b : ℕ)
        → eqb g h ≡ false
        → Uses (s.phase h) k b
        → (eqb ((s.heap a).ref_count - 1) 0 ≡ true)
        → (key == k) ≡ false
    other_counts h k b p u last = elim (Bool-cases (key == k)) [
      | inr q ↦ q
      | inl q ↦
          let same : lookup key s.entries ≡ some b = rw (beq_eq key k q) (c.mapped h k b u) in
          let ab : a ≡ b = ground (arith, same, c.mapped g key a g-Uses) in
          let there : elem h (remove_one g (users a)) ≡ true =
            elem-remove_one g h (users a) p ∙ rw ab (c.listed h k b u) in
          absurd (ground (arith, last, left, has_some h (remove_one g (users a)) there))
    ]

    pub release-Counts : Counts (release g key a s) (release_users g a users)
    unfolding release
    release-Counts = record {
      counted = λ b. elim (Bool-cases (eqb a b)) [ inl p ↦ rw p left | inr p ↦ rw p (c.counted b) ];
      distinct = λ b. elim (Bool-cases (eqb a b)) [
        | inl p ↦ rw p (remove_one-AreDistinct g (users a) (c.distinct a)).0
        | inr p ↦ rw p (c.distinct b)
      ];
      listed = λ h k b u. elim (Uses-moved Phase.outside s.phase g h k b u) [
        | inl (p, v) ↦ absurd v
        | inr (p, v) ↦ elim (Bool-cases (eqb a b)) [
          | inl q ↦ rw q (elem-remove_one g h (users a) p ∙ rw (beq_eq a b q) (c.listed h k b v))
          | inr q ↦ rw q (c.listed h k b v)
        ]
      ];
      unlisted = λ h b u. elim (Bool-cases (eqb a b)) [
        | inl q ↦ elim (Bool-cases (eqb g h)) [
          | inl p ↦ absurd (
              true≢false (
                sym (still h b q u)
                ∙ ap (λ t. elem t (remove_one g (users a))) (sym (beq_eq g h p))
                ∙ (remove_one-AreDistinct g (users a) (c.distinct a)).1))
          | inr p ↦
              let (k, v) = c.unlisted h a (sym (elem-remove_one g h (users a) p) ∙ still h b q u) in
              (k, rw (p, sym (beq_eq a b q)) v)
        ]
        | inr q ↦
            let v =
              c.unlisted h b
                (subst (λ t. elem h (if t then remove_one g (users a) else users b) ≡ true) q u) in
            (
              v.0,
              elim (Bool-cases (eqb g h)) [
                | inl p ↦
                    let w = subst (λ t. Uses t v.0 b) (ap s.phase (sym (beq_eq g h p)) ∙ at) v.1 in
                    absurd (true≢false (sym (beq_refl a) ∙ ap (λ t. eqb a t) w.1 ∙ q))
                | inr p ↦ rw p v.1
              ],
            )
      ];
      mapped = λ h k b u. elim (Uses-moved Phase.outside s.phase g h k b u) [
        | inl (p, v) ↦ absurd v
        | inr (p, v) ↦
            found_after (eqb ((s.heap a).ref_count - 1) 0) key k b s.entries (c.mapped h k b v)
              (other_counts h k b p v)
      ];
      fresh = λ k b h. c.fresh k b (before k b h);
      apart = λ j k b h h'. c.apart j k b (before j b h) (before k b h');
      locked = λ h k b u. elim (holding_moved Phase.outside s.phase g h k b u) [
        | inl (p, w) ↦ absurd (true≢false (sym (ap is_holding w)))
        | inr (p, w) ↦ elim (Bool-cases (eqb a b)) [
          | inl q ↦
              let by_h : (s.heap a).locked_by ≡ some h = rw (beq_eq a b q) (c.locked h k b w) in
              absurd (ground (arith, p, by_h, c.locked g key a at))
          | inr q ↦ rw q (c.locked h k b w)
        ]
      ];
    }
      where
        still :
            (h b : ℕ)
            → eqb a b ≡ true
            → elem h (put_at a (remove_one g (users a)) users b) ≡ true
            → elem h (remove_one g (users a)) ≡ true
        still h b q u =
            subst (λ t. elem h (if t then remove_one g (users a) else users b) ≡ true) q u

        before :
            (k : K) (b : ℕ)
            → lookup k
                (if eqb ((s.heap a).ref_count - 1) 0 then remove_key key s.entries else s.entries)
              ≡ some b
            → lookup k s.entries ≡ some b
        before k b h = (found_before (eqb ((s.heap a).ref_count - 1) 0) key k b s.entries h).0

    pub release-AreUsed : AreUsed (release g key a s) (release_users g a users)
    unfolding release
    release-AreUsed k b h =
        let (found, kept) = found_before (eqb ((s.heap a).ref_count - 1) 0) key k b s.entries h in
        elim (Bool-cases (eqb a b)) [
          | inr q ↦ rw q (used k b found)
          | inl q ↦
              let same : key ≡ k =
                c.apart key k b (rw (sym (beq_eq a b q)) (c.mapped g key a g-Uses)) found in
              elim (Bool-cases (eqb ((s.heap a).ref_count - 1) 0)) [
                | inl p ↦
                    absurd (true≢false (sym (beq_refl key) ∙ ap (λ t. key == t) same ∙ kept p))
                | inr p ↦ rw q (ground (arith, p, left))
              ]
        ]
