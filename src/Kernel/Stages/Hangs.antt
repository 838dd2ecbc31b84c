-- ===== src/Kernel/Stages/Hangs.antt =====
-- What becomes of the kernel of pkg/kernel when a stage does not get healthy in time.
use gosoline.Prelude.{ℕ, suc, ◌-◌, ◌<◌, ◌≡◌, false, arith}
use gosoline.Kernel.Stages.{
  Kernel, new_kernel, failed, begin, spawn, signal_running, become_healthy, time_out, stop, kill,
  exit_module, fail_module, cancel, terminate, Step, begins, spawns, signals, becomes_healthy,
  times_out, stops, kills, exits, fails, cancels, terminates, Reach, here, further,
}
use gosoline.Kernel.Stages.Order.{IsRight, Reach-IsRight, new_kernel-IsRight}

-- The start has failed before the last stage, of which no stage above was run.
pub record IsStuck (k : Kernel) : Type 0 where
  pub start_failed : k.starting ≡ failed
  pub some_left : k.next < k.count
  pub none_stopped : k.left ≡ k.count
  pub top_idle : (i : ℕ) → k.count ≡ suc i → (k.stages i).begun ≡ false
  pub top_silent : (i : ℕ) → k.count ≡ suc i → (k.stages i).running ≡ false
  pub none_told : (i : ℕ) → (k.stages i).told ≡ false
  pub none_terminated : (i : ℕ) → (k.stages i).terminated ≡ false

Step-IsStuck : {k l : Kernel} → Step k l → IsStuck k → IsStuck l
unfolding begin spawn signal_running become_healthy time_out stop kill exit_module fail_module
    cancel terminate
Step-IsStuck (begins k p q) h = ground (arith, h)
Step-IsStuck (spawns k i p q) h = record {
  start_failed = h.start_failed;
  some_left = h.some_left;
  none_stopped = h.none_stopped;
  top_idle = λ j e. ground (arith, h.top_idle j);
  top_silent = λ j e. ground (arith, h.top_silent j);
  none_told = λ j. ground (arith, h.none_told j);
  none_terminated = λ j. ground (arith, h.none_terminated j);
}
Step-IsStuck (signals k i p q) h = record {
  start_failed = h.start_failed;
  some_left = h.some_left;
  none_stopped = h.none_stopped;
  top_idle = λ j e. ground (arith, h.top_idle j);
  top_silent = λ j e. ground (arith, h.top_silent j, h.top_idle j);
  none_told = λ j. ground (arith, h.none_told j);
  none_terminated = λ j. ground (arith, h.none_terminated j);
}
Step-IsStuck (becomes_healthy k p) h = ground (arith, h)
Step-IsStuck (times_out k p) h = ground (arith, h)
Step-IsStuck (stops k) h = record {
  start_failed = h.start_failed;
  some_left = h.some_left;
  none_stopped = h.none_stopped;
  top_idle = h.top_idle;
  top_silent = h.top_silent;
  none_told = h.none_told;
  none_terminated = h.none_terminated;
}
Step-IsStuck (kills k i p q r) h = absurd (ground (arith, h.top_silent i))
Step-IsStuck (exits k i p) h = record {
  start_failed = h.start_failed;
  some_left = h.some_left;
  none_stopped = h.none_stopped;
  top_idle = λ j e. ground (arith, h.top_idle j);
  top_silent = λ j e. ground (arith, h.top_silent j);
  none_told = λ j. ground (arith, h.none_told j);
  none_terminated = λ j. ground (arith, h.none_terminated j);
}
Step-IsStuck (fails k i p) h = record {
  start_failed = h.start_failed;
  some_left = h.some_left;
  none_stopped = h.none_stopped;
  top_idle = λ j e. ground (arith, h.top_idle j);
  top_silent = λ j e. ground (arith, h.top_silent j);
  none_told = λ j. ground (arith, h.none_told j);
  none_terminated = λ j. ground (arith, h.none_terminated j);
}
Step-IsStuck (cancels k i) h = record {
  start_failed = h.start_failed;
  some_left = h.some_left;
  none_stopped = h.none_stopped;
  top_idle = λ j e. ground (arith, h.top_idle j);
  top_silent = λ j e. ground (arith, h.top_silent j);
  none_told = λ j. ground (arith, h.none_told j);
  none_terminated = λ j. ground (arith, h.none_terminated j);
}
Step-IsStuck (terminates k i p q r s) h = absurd (ground (arith, h.none_told i))

Reach-IsStuck : {k l : Kernel} → IsStuck k → Reach k l → IsStuck l
Reach-IsStuck h here = h
Reach-IsStuck h (further r s) = Step-IsStuck s (Reach-IsStuck h r)

IsRight-IsStuck : (k : Kernel) → IsRight k → k.starting ≡ failed → k.next < k.count → IsStuck k
IsRight-IsStuck k (a, b, h) e p =
    let all_left : k.left ≡ k.count = ground (arith, h (k.count - 1)) in
    record {
      start_failed = e;
      some_left = p;
      none_stopped = all_left;
      top_idle = λ i q. ground (arith, h i);
      top_silent = λ i q. ground (arith, h i);
      none_told = λ i. ground (arith, h i, all_left);
      none_terminated = λ i. ground (arith, h i, all_left);
    }

-- If a stage other than the last one does not get healthy in time, then whatever happens after that,
-- also once Stop is called, Stop tells no stage to stop and no stage terminates: Stop waits for the last
-- stage, which is never run, to be running.
pub start_failure_hangs :
    (count : ℕ) (modules : ℕ → ℕ) (k l : Kernel)
    → Reach (new_kernel count modules) k
    → k.starting ≡ failed
    → k.next < k.count
    → Reach k l
    → ((i : ℕ) → ((l.stages i).told ≡ false) × ((l.stages i).terminated ≡ false))
      × (l.left ≡ l.count)
      × (0 < l.left)
start_failure_hangs count modules k l r e p more =
    let h =
      Reach-IsStuck (IsRight-IsStuck k (Reach-IsRight (new_kernel-IsRight count modules) r) e p)
        more in
    (λ i. (h.none_told i, h.none_terminated i), h.none_stopped, ground (arith, h))
