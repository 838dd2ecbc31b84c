-- ===== src/Exec/Tracker.antt =====
-- The strategies of pkg/exec/elapsed_time_tracker.go and the stop test of pkg/exec/backoff_tracked.go.
use gosoline.Prelude.{ℕ, ◌-◌, ◌&&◌, Option, none, some, ltb, if◌then◌else◌}

-- ElapsedTimeTracker; each call is given what the clock shows.
pub record Tracker (T : Type 0) : Type 0 where
  pub start : ℕ → T → T
  pub on_error : ℕ → T → T
  pub on_success : T → T
  pub elapsed : ℕ → T → ℕ

-- DefaultElapsedTimeTracker: its state is the start
abbrev pub default_tracker : Tracker ℕ
default_tracker = record {
  start = λ now t. now;
  on_error = λ now t. t;
  on_success = λ t. t;
  elapsed = λ now t. now - t;
}

-- ErrorTriggeredElapsedTimeTracker: its state is the time of the first error, none for the zero time
abbrev error_triggered_tracker : Tracker (Option ℕ)
error_triggered_tracker = record {
  start = λ now t. none;
  on_error = λ now t. elim t [ none ↦ some now | some since ↦ some since ];
  on_success = λ t. none;
  elapsed = λ now t. elim t [ none ↦ 0 | some since ↦ now - since ];
}

module _ {T : Type 0} (tracker : Tracker T) where
  -- NextBackOff, with none for backoff.Stop; the interval is the exponential backoff's
  unfoldable pub next_back_off : ℕ → ℕ → T → ℕ → Option ℕ
  next_back_off max_elapsed_time now t interval =
      if ltb 0 max_elapsed_time && ltb max_elapsed_time (tracker.elapsed now t)
      then none
      else some interval
