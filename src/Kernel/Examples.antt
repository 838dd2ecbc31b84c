-- ===== src/Kernel/Examples.antt =====
-- Runs of the kernel of pkg/kernel: two stages with one module each that start and stop, and a start that
-- fails in the first stage.
use gosoline.Prelude.{ℕ, ◌<◌, ◌≡◌, ◌⊎◌, refl, true, false, none, List, [], ◌∷◌, arith}
use gosoline.Kernel.Stages.{
  Kernel, new_kernel, begin, spawn, signal_running, become_healthy, time_out, stop, kill,
  exit_module, fail_module, terminate, begins, spawns, signals, becomes_healthy, times_out, stops,
  kills, exits, fails, terminates, Reach, here, further,
}
use gosoline.Kernel.Stages.Order.{stages_stop_in_order}
use gosoline.Kernel.Stages.Hangs.{start_failure_hangs}
use gosoline.Kernel.Modules.{
  ModuleConfig, ModuleExit, run_all_returned, count_foreground_modules, foreground_done_stops,
  others_left_runs_on,
}
use gosoline.Kernel.Exit.{
  Exit, Event, sets, force_calls, exit_loads, close_fails, exit_calls, run, forced_exit_code,
}

abbrev two_stages : Kernel
two_stages = new_kernel 2 (λ i. 1)

abbrev first_runs : Kernel
first_runs = become_healthy (signal_running 0 (spawn 0 (begin two_stages)))

abbrev both_run : Kernel
both_run = become_healthy (signal_running 1 (spawn 1 (begin first_runs)))

-- The module of the first stage fails, and then the last stage is stopped.
abbrev last_stopped : Kernel
last_stopped = terminate 1 (exit_module 1 (kill 1 (stop (fail_module 0 both_run))))

first_runs-Reach : Reach two_stages first_runs
unfolding begin spawn signal_running become_healthy
first_runs-Reach =
    further
      (further
        (further (further here (begins two_stages refl (omega arith)))
          (spawns _ 0 refl (omega arith)))
        (signals _ 0 refl refl))
      (becomes_healthy _ refl)

both_run-Reach : Reach two_stages both_run
unfolding begin spawn signal_running become_healthy
both_run-Reach =
    further
      (further
        (further (further first_runs-Reach (begins _ refl (omega arith)))
          (spawns _ 1 refl (omega arith)))
        (signals _ 1 refl refl))
      (becomes_healthy _ refl)

first_killed-Reach : Reach two_stages (kill 0 last_stopped)
unfolding begin spawn signal_running become_healthy stop kill exit_module fail_module terminate
first_killed-Reach =
    further
      (further
        (further
          (further (further (further both_run-Reach (fails _ 0 (omega arith))) (stops _))
            (kills _ 1 refl refl refl))
          (exits _ 1 (omega arith)))
        (terminates _ 1 refl refl refl refl))
      (kills _ 0 refl refl refl)

stages_stop_in_order_example :
    (((kill 0 last_stopped).stages 1).terminated ≡ true)
    × (((kill 0 last_stopped).stages 1).live ≡ 0)
unfolding begin spawn signal_running become_healthy stop kill exit_module fail_module terminate
stages_stop_in_order_example =
    stages_stop_in_order 2 (λ i. 1) (kill 0 last_stopped) first_killed-Reach 0 1 (omega arith)
      (omega arith) refl

abbrev first_fails : Kernel
first_fails = time_out (begin two_stages)

first_fails-Reach : Reach two_stages first_fails
unfolding begin time_out
first_fails-Reach = further (further here (begins two_stages refl (omega arith))) (times_out _ refl)

start_failure_hangs_example :
    ((i : ℕ)
      → (((stop first_fails).stages i).told ≡ false)
        × (((stop first_fails).stages i).terminated ≡ false))
    × ((stop first_fails).left ≡ (stop first_fails).count)
    × (0 < (stop first_fails).left)
unfolding begin time_out
start_failure_hangs_example =
    start_failure_hangs 2 (λ i. 1) first_fails (stop first_fails) first_fails-Reach refl
      (omega arith) (further here (stops first_fails))

abbrev foreground : ModuleConfig
foreground = record { essential = false; background = false }

abbrev background : ModuleConfig
background = record { essential = false; background = true }

abbrev three_exits : List ModuleExit
three_exits =
    record { config = foreground; has_err = true }
    ∷ record { config = background; has_err = false }
    ∷ record { config = foreground; has_err = false }
    ∷ []

foreground_done_stops_example :
    (run_all_returned three_exits (record { foreground_modules = 2; stopping = false })).stopping
    ≡ true
unfolding count_foreground_modules
foreground_done_stops_example =
    foreground_done_stops three_exits (record { foreground_modules = 2; stopping = false }) refl
      (omega arith)

abbrev quiet_exits : List ModuleExit
quiet_exits =
    record { config = background; has_err = false }
    ∷ record { config = foreground; has_err = false }
    ∷ []

others_left_runs_on_example :
    (run_all_returned quiet_exits (record { foreground_modules = 2; stopping = false })).stopping
    ≡ false
unfolding count_foreground_modules
others_left_runs_on_example =
    others_left_runs_on quiet_exits (record { foreground_modules = 2; stopping = false })
      ((refl, refl), ((refl, refl), tt)) (omega arith)

-- forceExit has stored its code, and has not called the handler yet.
abbrev forced : Exit
forced = record { exit_code = 12; handled = []; forcing = true; loaded = none }

-- Run ends well and exit is faster, but the logger can not be closed.
abbrev graceful : List Event
graceful = sets 0 ∷ exit_loads ∷ close_fails ∷ exit_calls ∷ force_calls ∷ []

forced_exit_code_example :
    ((run graceful forced).exit_code ≡ 12)
    × (((run graceful forced).handled ≡ []) ⊎ ((run graceful forced).handled ≡ 12 ∷ []))
forced_exit_code_example = forced_exit_code graceful forced refl refl refl
