-- ===== src/Conc/PoisonedLock/Closes.antt =====
-- That a lock of pkg/conc/poisoned_lock.go that is poisoned stays closed.
use gosoline.Prelude.{◌≡◌, inl, inr, true, false, some, List, [], ◌∷◌, arith, All, Option-cases}
use gosoline.Conc.PoisonedLock.{
  Lock, Outcome, already_poisoned, Call, try_lock, unlock, poison, poison_if, call, run,
}

-- The lock is poisoned and nobody holds it.
pub record IsClosed (l : Lock) : Type 0 where
  pub free : l.locked ≡ false
  pub dead : l.poisoned ≡ true

call-IsClosed :
    (c : Call) (l m : Lock) (outcome : Outcome)
    → IsClosed l
    → call c l ≡ some (outcome, m)
    → (outcome ≡ already_poisoned) × IsClosed m
unfolding call
call-IsClosed try_lock l m outcome h e = ground arith
call-IsClosed unlock l m outcome h e = ground arith
call-IsClosed poison l m outcome h e = ground arith
call-IsClosed (poison_if should_poison fails) l m outcome h e = ground arith

run-IsClosed : (cs : List Call) (l : Lock) → IsClosed l → All (λ o. o ≡ already_poisoned) (run cs l)
unfolding run
run-IsClosed [] l h = tt
run-IsClosed (c ∷ cs) l h = elim (Option-cases (call c l)) [
  | inl waits ↦ rw (waits, All) tt
  | inr ((outcome, m), returns) ↦
      let (p, q) = call-IsClosed c l m outcome h returns in
      rw (returns, All) (p, run-IsClosed cs m q)
]

-- The calls that close the lock when they succeed.
abbrev Poisons : Call → Type 0
Poisons try_lock = ⊥
Poisons unlock = ⊥
Poisons poison = Unit
Poisons (poison_if should_poison fails) = should_poison ≡ true

poisoned-IsClosed :
    (c : Call) (l m : Lock) (outcome : Outcome)
    → Poisons c
    → call c l ≡ some (outcome, m)
    → IsClosed m
unfolding call
poisoned-IsClosed try_lock l m outcome p e = elim p [ ]
poisoned-IsClosed unlock l m outcome p e = elim p [ ]
poisoned-IsClosed poison l m outcome p e = ground arith
poisoned-IsClosed (poison_if should_poison fails) l m outcome p e = ground arith

-- Once Poison has returned, with or without an error, or PoisonIf whose function says so, every call that
-- returns at all returns ErrAlreadyPoisoned: nobody gets the lock and nobody poisons it again.
pub poison_closes :
    (c : Call) (l m : Lock) (outcome : Outcome) (cs : List Call)
    → Poisons c
    → call c l ≡ some (outcome, m)
    → All (λ o. o ≡ already_poisoned) (run cs m)
poison_closes c l m outcome cs p e = run-IsClosed cs m (poisoned-IsClosed c l m outcome p e)
