-- ===== src/Exec/Backoff.antt =====
-- `BackoffExecutor` of pkg/exec/executor_backoff.go. Its loop is `backoff.RetryNotify` of a package
-- that is not part of the repository: the loop is a parameter, given the executor's closures.
pub mod Rounds
pub mod Attempts
use gosoline.Prelude.{
  ℕ, ◌+◌, ◌≤◌, ◌<◌, ◌≡◌, Bool, true, false, ◌&&◌, Option, none, some, List, [], ◌∷◌, ltb, leb,
  if◌then◌else◌,
}
use gosoline.Exec.Tracker.{Tracker, next_back_off}

pub data ErrorType : Type 0 where
  unknown ok permanent retryable : ErrorType

-- What the operation of a retry returns: nil, the error, or the error marked as permanent.
pub data Reply (E : Type 0) : Type 0 where
  done : Reply E
  retry : E → Reply E
  give_up : E → Reply E

-- What Execute returns as its error.
pub data Failure (E : Type 0) : Type 0 where
  attempts_exceeded : ℕ → ℕ → E → Failure E
  max_elapsed_time_exceeded : ℕ → ℕ → E → Failure E
  plain : E → Failure E

-- BackoffSettings; no limit is 0, as a limit below 0 is none either
pub record Settings : Type 0 where
  pub max_attempts : ℕ
  pub max_elapsed_time : ℕ

-- What the executor is given, over a world that its calls change: the function it runs, with the
-- result and the error it returns; the notifiers, run in order; the clock; the next interval of the
-- exponential backoff; whether the context is done; and the checks.
pub record Executable (World A E : Type 0) : Type 0 where
  pub call : World → (A × Option E) × World
  pub notify : E → ℕ → World → World
  pub now : World → ℕ
  pub interval : World → ℕ × World
  pub is_done : World → Bool
  pub checks : List (A → E → ErrorType)

-- The variables of Execute that its closures share, and the world.
pub record Run (World T A E : Type 0) : Type 0 where
  pub world : World
  pub tracker : T
  pub attempts : ℕ
  pub res : A
  pub err : Option E
  pub err_type : ErrorType

-- The loop over a state: the operation, the next interval (none to stop), and the notification.
abbrev pub RetryNotify : Type 0 → Type 0 → Type 0
RetryNotify S E =
    (operation : S → Reply E × S) → (next : S → Option ℕ × S) → (notify : E → ℕ → S → S) → S → S

module _ {World T A E : Type 0} (x : Executable World A E) (tr : Tracker T)
    (settings : Settings) where
  -- the switch over what a check says; an unknown error type asks the next check
  abbrev pub after_check :
      E
      → ErrorType
      → Run World T A E
      → (Run World T A E → Reply E × Run World T A E)
      → Reply E × Run World T A E
  after_check e unknown r next_check = next_check r
  after_check e ok r next_check = (done, record r { tracker = tr.on_success r.tracker })
  after_check e permanent r next_check = (give_up e, r)
  after_check e retryable r next_check =
      (retry e, record r { tracker = tr.on_error (x.now r.world) r.tracker })

  unfoldable pub run_checks :
      List (A → E → ErrorType) → E → Run World T A E → Reply E × Run World T A E
  run_checks [] e r = (give_up e, r)
  run_checks (check ∷ rest) e r =
      after_check e (check r.res e) (record r { err_type = check r.res e })
        (λ s. run_checks rest e s)

  abbrev pub is_last_attempt : Run World T A E → Bool
  is_last_attempt r = ltb 0 settings.max_attempts && leb settings.max_attempts r.attempts

  unfoldable pub after_call : Option E → Run World T A E → Reply E × Run World T A E
  unfolding run_checks
  after_call none r = (done, record r { tracker = tr.on_success r.tracker })
  after_call (some e) r = if is_last_attempt r then (give_up e, r) else run_checks x.checks e r

  -- the operation
  unfoldable pub attempt : Run World T A E → Reply E × Run World T A E
  unfolding after_call
  attempt r =
      let ((res, err), world) = x.call r.world in
      after_call err (record r { world = world; res = res; err = err })

  -- NextBackOff of the tracked backoff, under backoff.WithContext
  unfoldable pub next : Run World T A E → Option ℕ × Run World T A E
  unfolding next_back_off
  next r =
      if x.is_done r.world
      then (none, r)
      else let (interval, world) = x.interval r.world in
        (
          next_back_off tr settings.max_elapsed_time (x.now world) r.tracker interval,
          record r { world = world },
        )

  -- the closure notify
  unfoldable pub notify : E → ℕ → Run World T A E → Run World T A E
  notify e interval r = record r { world = x.notify e interval r.world; attempts = r.attempts + 1 }

  abbrev pub start : T → A → World → Run World T A E
  start t nil world = record {
    world = world;
    tracker = tr.start (x.now world) t;
    attempts = 1;
    res = nil;
    err = none;
    err_type = unknown;
  }

  abbrev is_ok : ErrorType → Bool
  is_ok ok = true
  is_ok _ = false

  -- what is returned after the loop
  unfoldable pub finish : Run World T A E → A × Option (Failure E)
  finish r = elim r.err [
    | none ↦ (r.res, none)
    | some e ↦
        let duration = tr.elapsed (x.now r.world) r.tracker in
        if is_ok r.err_type
        then (r.res, some (plain e))
        else if ltb 0 settings.max_attempts && ltb settings.max_attempts r.attempts
        then (r.res, some (attempts_exceeded r.attempts duration e))
        else if ltb 0 settings.max_elapsed_time && ltb settings.max_elapsed_time duration
        then (r.res, some (max_elapsed_time_exceeded r.attempts duration e))
        else (r.res, some (plain e))
  ]

  -- The run that Execute makes, and what it returns.
  unfoldable pub run : RetryNotify (Run World T A E) E → T → A → World → Run World T A E
  unfolding attempt next notify
  run retry_notify t nil world = retry_notify attempt next notify (start t nil world)

  unfoldable pub execute :
      RetryNotify (Run World T A E) E → T → A → World → (A × Option (Failure E)) × World
  unfolding run finish
  execute retry_notify t nil world = let r = run retry_notify t nil world in (finish r, r.world)
