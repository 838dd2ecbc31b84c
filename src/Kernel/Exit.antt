-- ===== src/Kernel/Exit.antt =====
-- The exit code of the kernel of pkg/kernel/kernel.go: setExitCode, forceExit, exit and callExitHandler, whose
-- atomic operations are the events of goroutines that run at once.
use gosoline.Prelude.{
  ℕ, ◌≡◌, ◌⊎◌, inl, Bool, true, Option, none, some, List, [], ◌∷◌, arith, eqb, if◌then◌else◌,
}

abbrev exit_code_err : ℕ
exit_code_err = 1

abbrev exit_code_forced : ℕ
exit_code_forced = 12

-- exitCode; the codes that the exit handler was called with, which is guarded by exitHandlerOnce; whether
-- forceExit has stored its code; and what exit has loaded into its variable, which exitOnce lets happen once.
pub record Exit : Type 0 where
  pub exit_code : ℕ
  pub handled : List ℕ
  pub forcing : Bool
  pub loaded : Option ℕ

-- setExitCode: the loop ends with the code set in one atomic step, or left alone
unfoldable pub set_exit_code : ℕ → Exit → Exit
set_exit_code code e = if eqb e.exit_code exit_code_forced then e else record e { exit_code = code }

-- callExitHandler
unfoldable pub call_exit_handler : ℕ → Exit → Exit
call_exit_handler code e = elim e.handled [ [] ↦ record e { handled = code ∷ [] } | c ∷ cs ↦ e ]

-- What a goroutine does next: Run sets a code; forceExit stores its code, and then calls the handler; exit
-- loads the code, finds that the logger can not be closed, and calls the handler.
pub data Event : Type 0 where
  sets : ℕ → Event
  force_stores force_calls exit_loads close_fails exit_calls : Event

unfoldable pub store_forced : Exit → Exit
store_forced e = record e { exit_code = exit_code_forced; forcing = true }

unfoldable pub load_code : Exit → Exit
load_code e = elim e.loaded [ none ↦ record e { loaded = some e.exit_code } | some code ↦ e ]

unfoldable pub fail_close : Exit → Exit
unfolding set_exit_code
fail_close e = elim e.loaded [
  | none ↦ e
  | some code ↦
      let set = set_exit_code exit_code_err e in record set { loaded = some set.exit_code }
]

unfoldable pub call_loaded : Exit → Exit
unfolding call_exit_handler
call_loaded e = elim e.loaded [ none ↦ e | some code ↦ call_exit_handler code e ]

unfoldable pub step : Event → Exit → Exit
unfolding set_exit_code call_exit_handler store_forced load_code fail_close call_loaded
step (sets code) e = set_exit_code code e
step force_stores e = store_forced e
step force_calls e = if e.forcing then call_exit_handler exit_code_forced e else e
step exit_loads e = load_code e
step close_fails e = fail_close e
step exit_calls e = call_loaded e

unfoldable pub run : List Event → Exit → Exit
unfolding step
run [] e = e
run (x ∷ xs) e = run xs (step x e)

-- The code is the forced one, and nothing else is going to reach the handler.
pub record IsForced (e : Exit) : Type 0 where
  pub code : e.exit_code ≡ exit_code_forced
  pub loaded : (e.loaded ≡ none) ⊎ (e.loaded ≡ some exit_code_forced)
  pub handled : (e.handled ≡ []) ⊎ (e.handled ≡ exit_code_forced ∷ [])

step-IsForced : (x : Event) (e : Exit) → IsForced e → IsForced (step x e)
unfolding step set_exit_code call_exit_handler store_forced load_code fail_close call_loaded
step-IsForced (sets c) e h = record {
  code = ground (arith, h);
  loaded = ground (arith, h);
  handled = ground (arith, h);
}
step-IsForced force_stores e h = record {
  code = ground (arith, h);
  loaded = ground (arith, h);
  handled = ground (arith, h);
}
step-IsForced force_calls e h = record {
  code = ground (arith, h);
  loaded = ground (arith, h);
  handled = ground (arith, h);
}
step-IsForced exit_loads e h = record {
  code = ground (arith, h);
  loaded = ground (arith, h);
  handled = ground (arith, h);
}
step-IsForced close_fails e h = record {
  code = ground (arith, h);
  loaded = ground (arith, h);
  handled = ground (arith, h);
}
step-IsForced exit_calls e h = record {
  code = ground (arith, h);
  loaded = ground (arith, h);
  handled = ground (arith, h);
}

run-IsForced : (xs : List Event) (e : Exit) → IsForced e → IsForced (run xs e)
unfolding run
run-IsForced [] e h = h
run-IsForced (x ∷ xs) e h = run-IsForced xs (step x e) (step-IsForced x e h)

-- Once the kernel is forced to exit, before the graceful exit has loaded the code and the handler was called,
-- then however the goroutines go on, what they set and whether the logger can be closed: the code stays the
-- forced one, and the exit handler is called at most once, with this code.
pub forced_exit_code :
    (xs : List Event) (e : Exit)
    → e.exit_code ≡ exit_code_forced
    → e.loaded ≡ none
    → e.handled ≡ []
    → ((run xs e).exit_code ≡ exit_code_forced)
      × (((run xs e).handled ≡ []) ⊎ ((run xs e).handled ≡ exit_code_forced ∷ []))
forced_exit_code xs e c l n =
    let h = run-IsForced xs e (record { code = c; loaded = inl l; handled = inl n }) in
    (h.code, h.handled)
