-- ===== src/Exec/Examples.antt =====
-- Runs of the executor of pkg/exec with a loop on fuel: a function that fails a number of times.
use gosoline.Prelude.{
  ℕ, zero, suc, ◌+◌, ◌-◌, ◌≤◌, ◌≡◌, refl, false, Option, none, some, [], ◌∷◌, arith,
}
use mathlib.Core.Option
use gosoline.Exec.Tracker.{default_tracker}
use gosoline.Exec.Backoff.{ErrorType, Reply, Settings, Executable, RetryNotify, execute}
use gosoline.Exec.Backoff.Rounds.{Retries, AfterReply, AfterNext}
use gosoline.Exec.Backoff.Attempts.{
  unwrap, IsAttemptsExceeded, execute_calls, execute_last, execute_never_exceeds,
}

module _ {S E : Type 0} (operation : S → Reply E × S) (next : S → Option ℕ × S)
    (notify : E → ℕ → S → S) where
  abbrev continue : Option ℕ × S → E → (S → S) → S
  continue (none, s) e loop = s
  continue (some d, s) e loop = loop (notify e d s)

  abbrev round : Reply E × S → (S → S) → S
  round (Reply.done, s) loop = s
  round (Reply.give_up e, s) loop = s
  round (Reply.retry e, s) loop = continue (next s) e loop

  abbrev retry_on : ℕ → S → S
  retry_on zero s = s
  retry_on (suc fuel) s = round (operation s) (λ t. retry_on fuel t)

-- The context is done when the fuel is used up.
abbrev retry_notify : {S E : Type 0} → ℕ → RetryNotify S E
retry_notify fuel operation next notify s =
    round operation next notify (operation s) (λ t. retry_on operation next notify fuel t)

module _ {S E : Type 0} (operation : S → Reply E × S) (next : S → Option ℕ × S)
    (notify : E → ℕ → S → S) (P R : S → Type 0)
    (keeps : (s : S) → P s → AfterReply operation next notify P R (operation s)) where
  continue_lem :
      (r : Option ℕ × S) (e : E) (loop : S → S)
      → AfterNext operation next notify P R e r
      → ((s : S) → P s → R s → R (loop s))
      → R (continue operation next notify r e loop)
  continue_lem (none, s) e loop h f = h
  continue_lem (some d, s) e loop h f = f (notify e d s) h.0 h.1

  round_lem :
      (r : Reply E × S) (loop : S → S)
      → AfterReply operation next notify P R r
      → ((s : S) → P s → R s → R (loop s))
      → R (round operation next notify r loop)
  round_lem (Reply.done, s) loop h f = h
  round_lem (Reply.give_up e, s) loop h f = h
  round_lem (Reply.retry e, s) loop h f = continue_lem (next s) e loop h f

  retry_on_lem : (fuel : ℕ) (s : S) → P s → R s → R (retry_on operation next notify fuel s)
  retry_on_lem zero s p r = r
  retry_on_lem (suc fuel) s p r =
      round_lem (operation s) (λ t. retry_on operation next notify fuel t) (keeps s p)
        (λ t p' r'. retry_on_lem fuel t p' r')

retry_notify-Retries : {S E : Type 0} (fuel : ℕ) → Retries {S = S} {E = E} (retry_notify fuel)
retry_notify-Retries fuel operation next notify P R keeps s p =
    round_lem operation next notify P R keeps (operation s)
      (λ t. retry_on operation next notify fuel t) (keeps s p)
      (λ t p' r'. retry_on_lem operation next notify P R keeps fuel t p' r')

-- A world of the failures to come, the calls made, and what the last call returned.
pub record World : Type 0 where
  pub failures : ℕ
  pub calls : ℕ
  pub answer : ℕ × Option ℕ

abbrev answer_of : ℕ → ℕ × Option ℕ
answer_of zero = (7, none)
answer_of (suc n) = (0, some n)

abbrev flaky : Executable World ℕ ℕ
flaky = record {
  call = λ w. (
    answer_of w.failures,
    record { failures = w.failures - 1; calls = w.calls + 1; answer = answer_of w.failures },
  );
  notify = λ e d w. w;
  now = λ w. 0;
  interval = λ w. (50, w);
  is_done = λ w. false;
  checks = (λ res e. ErrorType.unknown) ∷ (λ res e. ErrorType.retryable) ∷ [];
}

abbrev twice : Settings
twice = record { max_attempts = 2; max_elapsed_time = 0 }

abbrev start : World
start = record { failures = 3; calls = 0; answer = (0, none) }

execute_calls_example :
    (execute flaky default_tracker twice (retry_notify 9) 0 0 start).1.calls ≤ 0 + 2
execute_calls_example =
    execute_calls flaky default_tracker twice (retry_notify 9) (retry_notify-Retries 9)
      (λ w. w.calls) (λ w. refl) (λ w. refl) (λ e d w. refl) 0 0 start (omega arith)

execute_last_example :
    ((execute flaky default_tracker twice (retry_notify 9) 0 0 start).0.0
      ≡ ((execute flaky default_tracker twice (retry_notify 9) 0 0 start).1.answer).0)
    × (Option.map unwrap (execute flaky default_tracker twice (retry_notify 9) 0 0 start).0.1
        ≡ ((execute flaky default_tracker twice (retry_notify 9) 0 0 start).1.answer).1)
execute_last_example =
    execute_last flaky default_tracker twice (retry_notify 9) (retry_notify-Retries 9)
      (λ w. w.answer) (λ w. refl) (λ w. refl) (λ e d w. refl) 0 0 start

execute_never_exceeds_example :
    ¬ IsAttemptsExceeded (execute flaky default_tracker twice (retry_notify 9) 0 0 start).0.1
execute_never_exceeds_example =
    execute_never_exceeds flaky default_tracker twice (retry_notify 9) (retry_notify-Retries 9) 0 0
      start
