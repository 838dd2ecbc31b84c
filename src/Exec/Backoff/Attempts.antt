-- ===== src/Exec/Backoff/Attempts.antt =====
-- How often BackoffExecutor.Execute of pkg/exec/executor_backoff.go calls, and what it returns.
use mathlib.Core.Option
use gosoline.Prelude.{
  ℕ, ◌+◌, ◌≤◌, ◌≡◌, ◌⊎◌, refl, sym, ap, ◌∙◌, inl, inr, Option, none, some, arith, Option-cases,
}
use gosoline.Exec.Tracker.{Tracker}
use gosoline.Exec.Backoff.{
  Failure, Settings, Executable, Run, RetryNotify, notify, finish, run, execute,
}
use gosoline.Exec.Backoff.Rounds.{Retries, run_keeps}

-- The error of the operation that a failure tells of.
abbrev pub unwrap : {E : Type 0} → Failure E → E
unwrap (Failure.attempts_exceeded n d e) = e
unwrap (Failure.max_elapsed_time_exceeded n d e) = e
unwrap (Failure.plain e) = e

abbrev pub IsAttemptsExceeded : {E : Type 0} → Option (Failure E) → Type 0
IsAttemptsExceeded none = ⊥
IsAttemptsExceeded (some (Failure.attempts_exceeded n d e)) = Unit
IsAttemptsExceeded (some (Failure.max_elapsed_time_exceeded n d e)) = ⊥
IsAttemptsExceeded (some (Failure.plain e)) = ⊥

module _ {World T A E : Type 0} (x : Executable World A E) (tr : Tracker T) (settings : Settings)
    (retry_notify : RetryNotify (Run World T A E) E) (retries : Retries retry_notify) where
  abbrev Bounded : Run World T A E → Type 0
  Bounded r = (settings.max_attempts ≡ 0) ⊎ (r.attempts ≤ settings.max_attempts)

  run-Bounded :
      (t : T) (nil : A) (world : World) → Bounded (run x tr settings retry_notify t nil world)
  unfolding notify
  run-Bounded t nil world =
      run_keeps x tr settings retry_notify retries Bounded Bounded
        (λ r s h called. (grind arith, grind arith, λ allowed e d. (grind arith, grind arith))) t
        nil world (grind arith)

  finish_lem : (r : Run World T A E) → Bounded r → ¬ IsAttemptsExceeded (finish x tr settings r).1
  unfolding finish
  finish_lem r h = elim (Option-cases r.err) [
    | inl e ↦ rw e (λ x. x)
    | inr (err, e) ↦ rw e (ground arith)
  ]

  finish_returns :
      (r : Run World T A E)
      → ((finish x tr settings r).0 ≡ r.res)
        × (Option.map unwrap (finish x tr settings r).1 ≡ r.err)
  unfolding finish
  finish_returns r = elim (Option-cases r.err) [
    | inl e ↦ rw e (refl, refl)
    | inr (err, e) ↦ rw e (ground arith)
  ]

  -- Whatever the executable, the checks, the tracker and the limits, Execute never returns
  -- ErrAttemptsExceeded: the operation gives up at the last attempt, so that the count never passes it.
  pub execute_never_exceeds :
      (t : T) (nil : A) (world : World)
      → ¬ IsAttemptsExceeded (execute x tr settings retry_notify t nil world).0.1
  unfolding execute
  execute_never_exceeds t nil world =
      finish_lem (run x tr settings retry_notify t nil world) (run-Bounded t nil world)

  -- With a limit on the attempts, a run makes no more calls than the limit, by any measure of the
  -- world that counts a call as one and is kept by the notifiers and by asking for the interval.
  pub execute_calls :
      (used : World → ℕ)
      → ((w : World) → used (x.call w).1 ≡ used w + 1)
      → ((w : World) → used (x.interval w).1 ≡ used w)
      → ((e : E) (d : ℕ) (w : World) → used (x.notify e d w) ≡ used w)
      → (t : T) (nil : A) (world : World) → 1 ≤ settings.max_attempts
      → used (execute x tr settings retry_notify t nil world).1 ≤ used world + settings.max_attempts
  unfolding execute notify
  execute_calls used call_counts interval_keeps notify_keeps t nil world limit =
      run_keeps x tr settings retry_notify retries
        (λ r. (used r.world + 1 ≡ used world + r.attempts) × (r.attempts ≤ settings.max_attempts))
        (λ r. used r.world ≤ used world + settings.max_attempts)
        (λ r s h called. (
          ground (arith, call_counts r.world),
          ground (arith, call_counts r.world, interval_keeps s.world),
          λ allowed e d. ground (
            arith,
            call_counts r.world,
            interval_keeps s.world,
            notify_keeps e d (x.interval s.world).1,
          ),
        ))
        t nil world (grind arith, limit)

  -- Execute returns the result of the last call, and an error exactly if the last call failed, one
  -- that wraps its error; of any memory of the last call that the other operations keep.
  pub execute_last :
      (last : World → A × Option E)
      → ((w : World) → last (x.call w).1 ≡ (x.call w).0)
      → ((w : World) → last (x.interval w).1 ≡ last w)
      → ((e : E) (d : ℕ) (w : World) → last (x.notify e d w) ≡ last w)
      → (t : T) (nil : A) (world : World)
      → let ((res, failure), after) = execute x tr settings retry_notify t nil world in
        (res ≡ (last after).0) × (Option.map unwrap failure ≡ (last after).1)
  unfolding execute notify
  execute_last last call_sets interval_keeps notify_keeps t nil world =
      let remembered : last r.world ≡ (r.res, r.err) =
        run_keeps x tr settings retry_notify retries (λ r. Unit)
          (λ r. last r.world ≡ (r.res, r.err))
          (λ r s h called.
            let (to_world, counted, to_res, to_err) = called in
            let calls : last s.world ≡ (s.res, s.err) =
              ap last to_world ∙ call_sets r.world ∙ cc (to_res, to_err) in
            (
              calls,
              interval_keeps s.world ∙ calls,
              λ allowed e d.
                  (tt, notify_keeps e d (x.interval s.world).1 ∙ interval_keeps s.world ∙ calls),
            ))
          t nil world tt in
      let (res, err) = finish_returns r in
      (res ∙ sym (ap (λ p. p.0) remembered), err ∙ sym (ap (λ p. p.1) remembered))
    where
      r : Run World T A E
      r = run x tr settings retry_notify t nil world
