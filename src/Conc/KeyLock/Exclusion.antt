-- ===== src/Conc/KeyLock/Exclusion.antt =====
-- That the lock of pkg/conc/key_lock.go excludes, and keeps no entry that nobody uses.
use mathlib.Core.Bool.{true≢false}
use mathlib.Core.Path.{subst}
use gosoline.Prelude.{
  ℕ, ◌≤◌, ◌≡◌, refl, sym, ap, ◌∙◌, inl, inr, true, none, some, List, [], ◌∷◌, arith, length, elem,
  eqb, lookup, Comparable, Bool-cases, beq_refl, nat_comparable,
}
use gosoline.Conc.KeyLock.Counts.{Uses, Counts, AreUsed, is_holding}
use gosoline.Conc.KeyLock.Moves.{join-Counts, acquire-Counts, entry_of-Counts}
use gosoline.Conc.KeyLock.Release.{release_users, release-Counts, release-AreUsed}
use gosoline.Conc.KeyLock.{
  Phase, State, put_at, entry_of, join, request, acquire, new_key_lock, Step, Reachable,
}

module _ {K : Type 0} ⦃e : Comparable K⦄ where
  -- There are lists of users that the state counts, and every entry of the map has one.
  abbrev IsValid : State K → Type 0
  IsValid s = (users : ℕ → List ℕ) × Counts s users × AreUsed s users

  new-IsValid : IsValid new_key_lock
  new-IsValid = (
    λ a. [],
    record {
      counted = λ a. refl;
      distinct = λ a. tt;
      listed = λ g k a u. absurd u;
      unlisted = λ g a u. absurd (true≢false (sym u));
      mapped = λ g k a u. absurd u;
      fresh = λ k a h. absurd (ground (arith, h));
      apart = λ j k a h h'. absurd (ground (arith, h));
      locked = λ g k a u. absurd (true≢false (sym (ap is_holding u)));
    },
    λ k a h. absurd (ground (arith, h)),
  )

  request-IsValid :
      (s : State K) (g : ℕ) (key : K)
      → s.phase g ≡ Phase.outside
      → IsValid s
      → IsValid (request g key s)
  unfolding request join
  request-IsValid s g key out (users, c, used) =
      let (users', c', found, others, phases) = entry_of-Counts s users key c used in
      let a = (entry_of key s).0 in
      (
        put_at a (g ∷ users' a) users',
        join-Counts (entry_of key s).1 users' g key a c' found (phases g ∙ out),
        λ k b h. elim (Bool-cases (eqb a b)) [
          | inl p ↦ rw p (omega arith)
          | inr p ↦ elim (others k b h) [
            | inl q ↦ absurd (true≢false (sym (beq_refl a) ∙ ap (λ t. eqb a t) q ∙ p))
            | inr q ↦ rw p q
          ]
        ],
      )

  acquire-IsValid :
      (s : State K) (g : ℕ) (key : K) (a : ℕ)
      → s.phase g ≡ Phase.waiting key a
      → (s.heap a).locked_by ≡ none
      → IsValid s
      → IsValid (acquire g key a s)
  unfolding acquire
  acquire-IsValid s g key a at free (users, c, used) =
      (users, acquire-Counts s users g key a c at free, used)

  Step-IsValid : (s t : State K) → Step s t → IsValid s → IsValid t
  Step-IsValid s _ (Step.requests g key out) v = request-IsValid s g key out v
  Step-IsValid s _ (Step.acquires g key a at free) v = acquire-IsValid s g key a at free v
  Step-IsValid s _ (Step.releases g key a at) (users, c, used) = (
    release_users g a users,
    release-Counts s users g key a c used at,
    release-AreUsed s users g key a c used at,
  )

  Reachable-IsValid : (s : State K) → Reachable s → IsValid s
  Reachable-IsValid _ Reachable.starts = new-IsValid
  Reachable-IsValid t (Reachable.steps s _ r m) = Step-IsValid s t m (Reachable-IsValid s r)

  -- In every state that goroutines reach, at most one of them holds a key: Lock of the same key has
  -- not returned to two that have not unlocked.
  pub key_lock_excludes :
      (s : State K)
      → Reachable s
      → (g h : ℕ) (k : K) (a b : ℕ) → s.phase g ≡ Phase.holding k a
      → s.phase h ≡ Phase.holding k b
      → g ≡ h
  key_lock_excludes s r g h k a b p q =
      let (users, c, used) = Reachable-IsValid s r in
      let at_g : lookup k s.entries ≡ some a = c.mapped g k a (rw p (refl, refl)) in
      let at_h : lookup k s.entries ≡ some b = c.mapped h k b (rw q (refl, refl)) in
      let same : a ≡ b = ground (arith, at_g, at_h) in
      let by_h : (s.heap a).locked_by ≡ some h = rw same (c.locked h k b q) in
      ground (arith, c.locked g k a p, by_h)

  -- In every state that goroutines reach, a key has an entry in the map only while some goroutine
  -- waits for it or holds it: nothing is left behind.
  pub key_lock_frees :
      (s : State K)
      → Reachable s
      → (k : K) (a : ℕ) → lookup k s.entries ≡ some a
      → (g : ℕ) × Uses (s.phase g) k a
  key_lock_frees s r k a found =
      let (users, c, used) = Reachable-IsValid s r in
      user (users a) (used k a found) (λ g u.
        let (j, v) = c.unlisted g a u in
        subst (λ t. Uses (s.phase g) t a) (c.apart j k a (c.mapped g j a v) found) v)
    where
      user :
          (hs : List ℕ)
          → 1 ≤ length hs
          → ((g : ℕ) → elem g hs ≡ true → Uses (s.phase g) k a)
          → (g : ℕ) × Uses (s.phase g) k a
      user [] p f = absurd (omega arith)
      user (h ∷ hs) p f = (h, f h (rw (beq_refl h) refl))
