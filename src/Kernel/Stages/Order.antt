-- ===== src/Kernel/Stages/Order.antt =====
-- The order in which the kernel of pkg/kernel starts and stops its stages.
use gosoline.Prelude.{ℕ, suc, ◌≤◌, ◌<◌, ◌≡◌, refl, ◌∙◌, true, arith}
use gosoline.Kernel.Stages.{
  Stage, Kernel, new_kernel, begin, spawn, signal_running, become_healthy, time_out, stop, kill,
  exit_module, fail_module, cancel, terminate, Step, begins, spawns, signals, becomes_healthy,
  times_out, stops, kills, exits, fails, cancels, terminates, Reach, here, further,
}

-- What holds of the stage at a place.
pub record StageIsRight (k : Kernel) (i : ℕ) (s : Stage) : Type 0 where
  pub begun_next : s.begun ≡ true → i < k.next
  pub next_begun : i < k.next → s.begun ≡ true
  pub running_begun : s.running ≡ true → s.begun ≡ true
  pub running_spawned : s.running ≡ true → s.spawned ≡ s.modules
  pub live_spawned : s.live ≤ s.spawned
  pub spawned_modules : s.spawned ≤ s.modules
  pub spawned_begun : 0 < s.spawned → s.begun ≡ true
  pub told_running : s.told ≡ true → s.running ≡ true
  pub told_left : s.told ≡ true → k.left ≤ suc i
  pub left_terminated : k.left ≤ i → i < k.count → s.terminated ≡ true
  pub terminated_told : s.terminated ≡ true → s.told ≡ true
  pub terminated_ended : s.terminated ≡ true → s.live ≡ 0

abbrev pub IsRight : Kernel → Type 0
IsRight k = (k.next ≤ k.count) × (k.left ≤ k.count) × ((i : ℕ) → StageIsRight k i (k.stages i))

begin-IsRight : (k : Kernel) → k.next < k.count → IsRight k → IsRight (begin k)
unfolding begin
begin-IsRight k p (a, b, h) = (omega arith, b, λ j. ground (arith, h j))

spawn-IsRight :
    (k : Kernel) (i : ℕ)
    → (k.stages i).begun ≡ true
    → (k.stages i).spawned < (k.stages i).modules
    → IsRight k
    → IsRight (spawn i k)
unfolding spawn
spawn-IsRight k i p q (a, b, h) = (a, b, λ j. ground (arith, h j, h i))

signal_running-IsRight :
    (k : Kernel) (i : ℕ)
    → (k.stages i).begun ≡ true
    → (k.stages i).spawned ≡ (k.stages i).modules
    → IsRight k
    → IsRight (signal_running i k)
unfolding signal_running
signal_running-IsRight k i p q (a, b, h) = (a, b, λ j. ground (arith, h j, h i))

kill-IsRight :
    (k : Kernel) (i : ℕ)
    → k.left ≡ suc i
    → (k.stages i).running ≡ true
    → IsRight k
    → IsRight (kill i k)
unfolding kill
kill-IsRight k i p q (a, b, h) = (a, b, λ j. ground (arith, h j, h i))

exit_module-IsRight : (k : Kernel) (i : ℕ) → IsRight k → IsRight (exit_module i k)
unfolding exit_module
exit_module-IsRight k i (a, b, h) = (a, b, λ j. ground (arith, h j, h i))

fail_module-IsRight : (k : Kernel) (i : ℕ) → IsRight k → IsRight (fail_module i k)
unfolding fail_module
fail_module-IsRight k i (a, b, h) = (a, b, λ j. ground (arith, h j, h i))

cancel-IsRight : (k : Kernel) (i : ℕ) → IsRight k → IsRight (cancel i k)
unfolding cancel
cancel-IsRight k i (a, b, h) = (a, b, λ j. ground (arith, h j, h i))

terminate-IsRight :
    (k : Kernel) (i : ℕ)
    → k.left ≡ suc i
    → (k.stages i).told ≡ true
    → (k.stages i).live ≡ 0
    → IsRight k
    → IsRight (terminate i k)
unfolding terminate
terminate-IsRight k i p q r (a, b, h) = (a, omega arith, λ j. ground (arith, h j, h i))

Step-IsRight : {k l : Kernel} → Step k l → IsRight k → IsRight l
unfolding become_healthy time_out stop
Step-IsRight (begins k p q) h = begin-IsRight k q h
Step-IsRight (spawns k i p q) h = spawn-IsRight k i p q h
Step-IsRight (signals k i p q) h = signal_running-IsRight k i p q h
Step-IsRight (becomes_healthy k p) (a, b, h) = (a, b, λ j. ground (arith, h j))
Step-IsRight (times_out k p) (a, b, h) = (a, b, λ j. ground (arith, h j))
Step-IsRight (stops k) (a, b, h) = (a, b, λ j. ground (arith, h j))
Step-IsRight (kills k i p q r) h = kill-IsRight k i q r h
Step-IsRight (exits k i p) h = exit_module-IsRight k i h
Step-IsRight (fails k i p) h = fail_module-IsRight k i h
Step-IsRight (cancels k i) h = cancel-IsRight k i h
Step-IsRight (terminates k i p q r s) h = terminate-IsRight k i q r s h

pub Reach-IsRight : {k l : Kernel} → IsRight k → Reach k l → IsRight l
Reach-IsRight h here = h
Reach-IsRight h (further r s) = Step-IsRight s (Reach-IsRight h r)

pub new_kernel-IsRight : (count : ℕ) (modules : ℕ → ℕ) → IsRight (new_kernel count modules)
new_kernel-IsRight count modules = (omega arith, omega arith, λ i. ground arith)

Step-count : {k l : Kernel} → Step k l → l.count ≡ k.count
unfolding begin spawn signal_running become_healthy time_out stop kill exit_module fail_module
    cancel terminate
Step-count (begins k p q) = refl
Step-count (spawns k i p q) = refl
Step-count (signals k i p q) = refl
Step-count (becomes_healthy k p) = refl
Step-count (times_out k p) = refl
Step-count (stops k) = refl
Step-count (kills k i p q r) = refl
Step-count (exits k i p) = refl
Step-count (fails k i p) = refl
Step-count (cancels k i) = refl
Step-count (terminates k i p q r s) = refl

Reach-count : {k l : Kernel} → Reach k l → l.count ≡ k.count
Reach-count here = refl
Reach-count (further r s) = Step-count s ∙ Reach-count r

module _ (count : ℕ) (modules : ℕ → ℕ) (k : Kernel) (r : Reach (new_kernel count modules) k) where
  -- In every state that a kernel reaches, if Stop has told a stage to stop, then each stage above it
  -- has terminated, and none of its modules runs any more.
  pub stages_stop_in_order :
      (i j : ℕ)
      → i < j
      → j < count
      → (k.stages i).told ≡ true
      → ((k.stages j).terminated ≡ true) × ((k.stages j).live ≡ 0)
  stages_stop_in_order i j p q told =
      let (a, b, h) = Reach-IsRight (new_kernel-IsRight count modules) r in
      ground (arith, h i, h j, Reach-count r)

  -- A stage is run only after each stage below it was run.
  stages_start_in_order : (i j : ℕ) → i < j → (k.stages j).begun ≡ true → (k.stages i).begun ≡ true
  stages_start_in_order i j p begun =
      let (a, b, h) = Reach-IsRight (new_kernel-IsRight count modules) r in ground (arith, h i, h j)

  -- In every state that a kernel reaches, once Stop has stopped all stages, each of them has terminated,
  -- and all of its modules have been spawned and have returned.
  stopped_ends_modules :
      (i : ℕ)
      → k.left ≡ 0
      → i < count
      → ((k.stages i).terminated ≡ true)
        × ((k.stages i).spawned ≡ (k.stages i).modules)
        × ((k.stages i).live ≡ 0)
  stopped_ends_modules i e p =
      let (a, b, h) = Reach-IsRight (new_kernel-IsRight count modules) r in
      ground (arith, h i, Reach-count r)
