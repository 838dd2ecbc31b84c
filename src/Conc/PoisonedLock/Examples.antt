-- ===== src/Conc/PoisonedLock/Examples.antt =====
-- A run of the lock of pkg/conc/poisoned_lock.go.
use gosoline.Prelude.{◌≡◌, refl, true, false, List, [], ◌∷◌, All}
use gosoline.Conc.PoisonedLock.{
  Lock, new_poisoned_lock, already_poisoned, failed, Call, try_lock, unlock, poison, poison_if,
  call, run,
}
use gosoline.Conc.PoisonedLock.Closes.{poison_closes}

abbrev closed : Lock
closed = record { locked = false; poisoned = true }

abbrev calls : List Call
calls = try_lock ∷ poison ∷ poison_if true false ∷ unlock ∷ []

poison_closes_example : All (λ o. o ≡ already_poisoned) (run calls closed)
unfolding call
poison_closes_example =
    poison_closes (poison_if true true) new_poisoned_lock closed failed calls refl refl
