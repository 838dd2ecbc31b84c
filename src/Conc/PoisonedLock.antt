-- ===== src/Conc/PoisonedLock.antt =====
-- `poisonedLock` of pkg/conc/poisoned_lock.go: a mutex that can be closed for ever. An operation that
-- waits for the mutex, or that Go ends with a fatal error, gives none.
pub mod Closes
mod Examples
use gosoline.Prelude.{Bool, true, false, Option, none, some, List, [], ◌∷◌, if◌then◌else◌}

pub record Lock : Type 0 where
  pub locked : Bool
  pub poisoned : Bool

-- What an operation returns: nil, ErrAlreadyPoisoned, or the error of a function.
pub data Outcome : Type 0 where
  ok already_poisoned failed : Outcome

-- The calls; PoisonIf has a function that says whether to poison and whether it fails.
pub data Call : Type 0 where
  try_lock unlock poison : Call
  poison_if : (should_poison : Bool) → (fails : Bool) → Call

-- NewPoisonedLock
abbrev pub new_poisoned_lock : Lock
new_poisoned_lock = record { locked = false; poisoned = false }

-- TryLock
unfoldable call_try_lock : Lock → Option (Outcome × Lock)
call_try_lock l =
    if l.locked
    then none
    else if l.poisoned
    then some (already_poisoned, l)
    else some (ok, record l { locked = true })

-- MustLock: a panic is none
unfoldable must_lock : Lock → Option Lock
unfolding call_try_lock
must_lock l = elim (call_try_lock l) [
  | none ↦ none
  | some (outcome, m) ↦ elim outcome [ ok ↦ some m | already_poisoned ↦ none | failed ↦ none ]
]

-- Unlock: of a mutex that nobody holds it is fatal
unfoldable call_unlock : Lock → Option (Outcome × Lock)
call_unlock l = if l.locked then some (ok, record l { locked = false }) else none

-- poisonLocked, which unlocks in the end
abbrev poison_locked : Lock → Outcome × Lock
poison_locked l =
    let outcome = if l.poisoned then already_poisoned else ok in
    (outcome, record { locked = false; poisoned = true })

-- Poison
unfoldable call_poison : Lock → Option (Outcome × Lock)
call_poison l = if l.locked then none else some (poison_locked (record l { locked = true }))

-- what PoisonIf does once it has the lock
abbrev with_function : Bool → Bool → Outcome × Lock → Outcome × Lock
with_function should_poison fails (already_poisoned, l) = (already_poisoned, l)
with_function should_poison fails (failed, l) = (failed, l)
with_function should_poison fails (ok, l) =
    let outcome = if fails then failed else ok in
    let poisoned = if should_poison then true else l.poisoned in
    (outcome, record { locked = false; poisoned = poisoned })

-- PoisonIf
unfoldable call_poison_if : Bool → Bool → Lock → Option (Outcome × Lock)
unfolding call_try_lock
call_poison_if should_poison fails l = elim (call_try_lock l) [
  | none ↦ none
  | some r ↦ some (with_function should_poison fails r)
]

unfoldable pub call : Call → Lock → Option (Outcome × Lock)
unfolding call_unlock call_poison call_poison_if
call try_lock l = call_try_lock l
call unlock l = call_unlock l
call poison l = call_poison l
call (poison_if should_poison fails) l = call_poison_if should_poison fails l

-- The outcomes of a run of calls, until one does not return.
unfoldable pub run : List Call → Lock → List Outcome
unfolding call
run [] l = []
run (c ∷ cs) l = elim (call c l) [ none ↦ [] | some (outcome, m) ↦ outcome ∷ run cs m ]
