-- ===== src/Exec/Backoff/Rounds.antt =====
-- What one round of the loop of BackoffExecutor.Execute (pkg/exec/executor_backoff.go) leaves, and so a
-- whole run.
use gosoline.Prelude.{
  ℕ, ◌≡◌, refl, sym, inl, inr, Bool, true, false, ◌&&◌, Option, none, some, List, [], ◌∷◌, ltb,
  Bool-cases, if◌then◌else◌,
}
use gosoline.Exec.Tracker.{Tracker, next_back_off}
use gosoline.Exec.Backoff.{
  ErrorType, Reply, Settings, Executable, Run, RetryNotify, run_checks, is_last_attempt,
  after_check, after_call, attempt, next, notify, run, start,
}

module _ {S E : Type 0} (operation : S → Reply E × S) (next : S → Option ℕ × S)
    (notify : E → ℕ → S → S) where
  -- What holds after the next interval was asked for: R when the loop stops; P for one more round,
  -- and R too, since the wait may end by the context.
  abbrev pub AfterNext : (S → Type 0) → (S → Type 0) → E → Option ℕ × S → Type 0
  AfterNext P R e (none, s) = R s
  AfterNext P R e (some d, s) = P (notify e d s) × R (notify e d s)

  abbrev pub AfterReply : (S → Type 0) → (S → Type 0) → Reply E × S → Type 0
  AfterReply P R (Reply.done, s) = R s
  AfterReply P R (Reply.give_up e, s) = R s
  AfterReply P R (Reply.retry e, s) = AfterNext P R e (next s)

-- What backoff.RetryNotify documents: it repeats the operation until it succeeds, returns a permanent
-- error or the backoff stops, and notifies before each wait; so that it keeps what each round keeps.
abbrev pub Retries : {S E : Type 0} → RetryNotify S E → Type 1
Retries {S} {E} retry_notify =
    (operation : S → Reply E × S)
    → (next : S → Option ℕ × S) → (notify : E → ℕ → S → S) → (P R : S → Type 0)
    → ((s : S) → P s → AfterReply operation next notify P R (operation s))
    → (s : S) → P s
    → R (retry_notify operation next notify s)

module _ {World T A E : Type 0} (x : Executable World A E) (tr : Tracker T) (settings : Settings)
    (retry_notify : RetryNotify (Run World T A E) E) (retries : Retries retry_notify) where
  -- What an attempt leaves: the world after the call, and what the call returned.
  abbrev Called : Run World T A E → Run World T A E → Type 0
  Called r s =
      (s.world ≡ (x.call r.world).1)
      × (s.attempts ≡ r.attempts)
      × (s.res ≡ (x.call r.world).0.0)
      × (s.err ≡ (x.call r.world).0.1)

  abbrev Same : Run World T A E → Run World T A E → Type 0
  Same r s = (s.world ≡ r.world) × (s.attempts ≡ r.attempts) × (s.res ≡ r.res) × (s.err ≡ r.err)

  -- The condition under which an attempt can ask for another.
  abbrev IsAllowed : Run World T A E → Reply E → Type 0
  IsAllowed r (Reply.retry e) = is_last_attempt x tr settings r ≡ false
  IsAllowed r Reply.done = Unit
  IsAllowed r (Reply.give_up e) = Unit

  abbrev AllowedCall : Run World T A E → Reply E × Run World T A E → Type 0
  AllowedCall r (reply, s) = Called r s × IsAllowed r reply

  after_check-Same :
      (e : E) (t : ErrorType) (r : Run World T A E)
      → (next_check : Run World T A E → Reply E × Run World T A E)
      → Same r (next_check (record r { err_type = t })).1
      → Same r (after_check x tr settings e t (record r { err_type = t }) next_check).1
  after_check-Same e ErrorType.unknown r next_check h = h
  after_check-Same e ErrorType.ok r next_check h = (refl, refl, refl, refl)
  after_check-Same e ErrorType.permanent r next_check h = (refl, refl, refl, refl)
  after_check-Same e ErrorType.retryable r next_check h = (refl, refl, refl, refl)

  run_checks-Same :
      (checks : List (A → E → ErrorType)) (e : E) (r : Run World T A E)
      → Same r (run_checks x tr settings checks e r).1
  unfolding run_checks
  run_checks-Same [] e r = (refl, refl, refl, refl)
  run_checks-Same (check ∷ rest) e r =
      after_check-Same e (check r.res e) r (λ s. run_checks x tr settings rest e s)
        (run_checks-Same rest e (record r { err_type = check r.res e }))

  IsAllowed-cases :
      (r : Run World T A E) (reply : Reply E)
      → is_last_attempt x tr settings r ≡ false
      → IsAllowed r reply
  IsAllowed-cases r Reply.done h = tt
  IsAllowed-cases r (Reply.give_up e) h = tt
  IsAllowed-cases r (Reply.retry e) h = h

  after_call_lem :
      (err : Option E) (r : Run World T A E)
      → Same r (after_call x tr settings err r).1 × IsAllowed r (after_call x tr settings err r).0
  unfolding after_call
  after_call_lem none r = ((refl, refl, refl, refl), tt)
  after_call_lem (some e) r = elim (Bool-cases (is_last_attempt x tr settings r)) [
    | inl p ↦ rw p ((refl, refl, refl, refl), tt)
    | inr p ↦ rw p (
      run_checks-Same x.checks e r,
      IsAllowed-cases r (run_checks x tr settings x.checks e r).0 p,
    )
  ]

  IsAllowed-attempts :
      (r s : Run World T A E) (reply : Reply E)
      → s.attempts ≡ r.attempts
      → IsAllowed s reply
      → IsAllowed r reply
  IsAllowed-attempts r s Reply.done e h = tt
  IsAllowed-attempts r s (Reply.give_up _) e h = tt
  IsAllowed-attempts r s (Reply.retry _) e h = rw (sym e) h

  attempt_lem : (r : Run World T A E) → AllowedCall r (attempt x tr settings r)
  unfolding attempt
  attempt_lem r =
      let s = record r {
        world = (x.call r.world).1;
        res = (x.call r.world).0.0;
        err = (x.call r.world).0.1;
      } in
      let (same, allowed) = after_call_lem (x.call r.world).0.1 s in
      (
        same,
        IsAllowed-attempts r s (after_call x tr settings (x.call r.world).0.1 s).0 refl allowed,
      )

  -- A run gives R when P holds at its start, and each call that P allows gives R, also after the
  -- interval was asked for, and P and R after a wait.
  abbrev Keeps : (Run World T A E → Type 0) → (Run World T A E → Type 0) → Type 0
  Keeps P R =
      (r s : Run World T A E)
      → P r
      → Called r s
      → R s
        × R (record s { world = (x.interval s.world).1 })
        × (is_last_attempt x tr settings r ≡ false
            → (e : E) (d : ℕ)
            → let t = notify x tr settings e d (record s { world = (x.interval s.world).1 }) in
              P t × R t)

  wait_lem :
      (P R : Run World T A E → Type 0) (e : E) (s : Run World T A E) (d : ℕ) (stop : Bool)
      → R s
      → P (notify x tr settings e d s) × R (notify x tr settings e d s)
      → AfterNext
          (attempt x tr settings)
          (next x tr settings)
          (notify x tr settings)
          P
          R
          e
          (if stop then none else some d, s)
  wait_lem P R e s d true h k = h
  wait_lem P R e s d false h k = k

  next_lem :
      (P R : Run World T A E → Type 0) (e : E) (s : Run World T A E)
      → R s
      → R (record s { world = (x.interval s.world).1 })
      → ((d : ℕ)
          → let t = notify x tr settings e d (record s { world = (x.interval s.world).1 }) in
            P t × R t)
      → AfterNext
          (attempt x tr settings)
          (next x tr settings)
          (notify x tr settings)
          P
          R
          e
          (next x tr settings s)
  unfolding next next_back_off
  next_lem P R e s h0 h1 h2 = elim (Bool-cases (x.is_done s.world)) [
    | inl p ↦ rw p h0
    | inr p ↦ rw p (
        wait_lem P R e (record s { world = (x.interval s.world).1 }) (x.interval s.world).0
          (ltb 0 settings.max_elapsed_time
            && ltb settings.max_elapsed_time (tr.elapsed (x.now (x.interval s.world).1) s.tracker))
          h1 (h2 (x.interval s.world).0))
  ]

  reply_lem :
      (P R : Run World T A E → Type 0)
      → Keeps P R
      → (r s : Run World T A E) (reply : Reply E) → P r
      → AllowedCall r (reply, s)
      → AfterReply
          (attempt x tr settings)
          (next x tr settings)
          (notify x tr settings)
          P
          R
          (reply, s)
  reply_lem P R keeps r s Reply.done p (called, allowed) = (keeps r s p called).0
  reply_lem P R keeps r s (Reply.give_up e) p (called, allowed) = (keeps r s p called).0
  reply_lem P R keeps r s (Reply.retry e) p (called, allowed) =
      let (h0, h1, h2) = keeps r s p called in next_lem P R e s h0 h1 (h2 allowed e)

  pub run_keeps :
      (P R : Run World T A E → Type 0)
      → Keeps P R
      → (t : T) (nil : A) (world : World) → P (start x tr settings t nil world)
      → R (run x tr settings retry_notify t nil world)
  unfolding run
  run_keeps P R keeps t nil world p =
      retries (attempt x tr settings) (next x tr settings) (notify x tr settings) P R
        (λ r h.
          reply_lem P R keeps r (attempt x tr settings r).1 (attempt x tr settings r).0 h
            (attempt_lem r))
        (start x tr settings t nil world) p
