-- ===== src/Conc/Examples.antt =====
-- Runs of the key lock of pkg/conc: one goroutine holds a key, and another one waits for it.
use gosoline.Prelude.{ℕ, ◌≡◌, refl, some, lookup, nat_comparable}
use gosoline.Conc.KeyLock.{
  State, Phase, entry_of, join, request, acquire, new_key_lock, Step, Reachable,
}
use gosoline.Conc.KeyLock.Exclusion.{key_lock_excludes, key_lock_frees}
use gosoline.Conc.KeyLock.Counts.{Uses}

abbrev asked : State ℕ
asked = request 0 5 new_key_lock

abbrev held : State ℕ
held = acquire 0 5 0 asked

abbrev contended : State ℕ
contended = request 1 5 held

asked-Reachable : Reachable asked
asked-Reachable = Reachable.steps new_key_lock asked Reachable.starts (Step.requests 0 5 refl)

held-Reachable : Reachable held
unfolding request entry_of join acquire
held-Reachable = Reachable.steps asked held asked-Reachable (Step.acquires 0 5 0 refl refl)

contended-Reachable : Reachable contended
unfolding request entry_of join acquire
contended-Reachable = Reachable.steps held contended held-Reachable (Step.requests 1 5 refl)

contended_held : contended.phase 0 ≡ Phase.holding 5 0
unfolding request entry_of join acquire
contended_held = refl

contended_entry : lookup 5 contended.entries ≡ some 0
unfolding request entry_of join acquire
contended_entry = refl

abbrev first : ℕ
first = 0

key_lock_excludes_example : first ≡ first
key_lock_excludes_example =
    key_lock_excludes contended contended-Reachable 0 0 5 0 0 contended_held contended_held

key_lock_frees_example : (g : ℕ) × Uses (contended.phase g) 5 0
key_lock_frees_example = key_lock_frees contended contended-Reachable 5 0 contended_entry
