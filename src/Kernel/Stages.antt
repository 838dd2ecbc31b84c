-- ===== src/Kernel/Stages.antt =====
-- How the kernel of pkg/kernel/kernel.go starts its stages in order (runStages) and stops them in the
-- reverse order (Stop), with run and stopWait of a stage (stage.go), as steps of the goroutines.
pub mod Order
pub mod Hangs
use gosoline.Prelude.{ℕ, suc, ◌+◌, ◌-◌, ◌≤◌, ◌<◌, ◌≡◌, Bool, true, false, eqb, if◌then◌else◌}

-- A stage: its modules, how many were spawned and how many of them still run; whether run was called,
-- and the signals running and terminated; whether its coffin was killed, for any reason, and whether
-- stopWait has told it to stop.
pub record Stage : Type 0 where
  pub modules : ℕ
  pub spawned : ℕ
  pub live : ℕ
  pub begun : Bool
  pub running : Bool
  pub killed : Bool
  pub told : Bool
  pub terminated : Bool

abbrev new_stage : ℕ → Stage
new_stage modules = record {
  modules = modules;
  spawned = 0;
  live = 0;
  begun = false;
  running = false;
  killed = false;
  told = false;
  terminated = false;
}

-- What runStages does: it is about to run a stage, waits for one to be healthy, or returned an error.
pub data Starting : Type 0 where
  ready waiting failed : Starting

-- The stages by their place in getIndices. `next` is how many of them runStages has run, and `left`
-- how many the goroutine of Stop has not stopped yet.
pub record Kernel : Type 0 where
  pub count : ℕ
  pub stages : ℕ → Stage
  pub starting : Starting
  pub next : ℕ
  pub stopping : Bool
  pub left : ℕ

-- A kernel before Run, whose stages have so many modules.
abbrev pub new_kernel : ℕ → (ℕ → ℕ) → Kernel
new_kernel count modules = record {
  count = count;
  stages = λ i. new_stage (modules i);
  starting = ready;
  next = 0;
  stopping = false;
  left = count;
}

abbrev pub update : (ℕ → Stage) → ℕ → (Stage → Stage) → ℕ → Stage
update stages i f j = if eqb j i then f (stages j) else stages j

-- runStages calls run of the next stage, which starts a goroutine and waits until it is healthy.
unfoldable pub begin : Kernel → Kernel
begin k = record k {
  stages = update k.stages k.next (λ s. record s { begun = true });
  starting = waiting;
  next = suc k.next;
}

-- The goroutine of a stage spawns one module more.
unfoldable pub spawn : ℕ → Kernel → Kernel
spawn i k = record k {
  stages = update k.stages i (λ s. record s { spawned = s.spawned + 1; live = s.live + 1 });
}

-- It has spawned all modules: s.running.Signal.
unfoldable pub signal_running : ℕ → Kernel → Kernel
signal_running i k = record k { stages = update k.stages i (λ s. record s { running = true }) }

-- waitUntilHealthy returns nil, as all modules are healthy or as the context of the stage is done.
unfoldable pub become_healthy : Kernel → Kernel
become_healthy k = record k { starting = ready }

-- waitUntilHealthy times out: runStages returns an error.
unfoldable pub time_out : Kernel → Kernel
time_out k = record k { starting = failed }

-- The first call of Stop, which any module, a signal or a failed start may make.
unfoldable pub stop : Kernel → Kernel
stop k = record k { stopping = true }

-- stopWait of a stage, which is past its running signal, tells it to stop: it kills the coffin.
unfoldable pub kill : ℕ → Kernel → Kernel
kill i k = record k { stages = update k.stages i (λ s. record s { killed = true; told = true }) }

-- A module returns without an error.
unfoldable pub exit_module : ℕ → Kernel → Kernel
exit_module i k = record k { stages = update k.stages i (λ s. record s { live = s.live - 1 }) }

-- A module returns with an error, panics or ends its goroutine, which kills the coffin of its own stage.
unfoldable pub fail_module : ℕ → Kernel → Kernel
fail_module i k = record k {
  stages = update k.stages i (λ s. record s { live = s.live - 1; killed = true });
}

-- The context that the stages were made of is done, which kills the coffin of a stage.
unfoldable pub cancel : ℕ → Kernel → Kernel
cancel i k = record k { stages = update k.stages i (λ s. record s { killed = true }) }

-- stopWait of a stage ends, once its coffin has no goroutine left: s.terminated.Signal. Stop goes on
-- with the stage below.
unfoldable pub terminate : ℕ → Kernel → Kernel
terminate i k = record k {
  stages = update k.stages i (λ s. record s { terminated = true });
  left = i;
}

-- What can happen next. A module may return at any time, and Stop may be called at any time.
pub data Step : Kernel → Kernel → Type 0 where
  begins : (k : Kernel) → k.starting ≡ ready → k.next < k.count → Step k (begin k)
  spawns :
      (k : Kernel) (i : ℕ)
      → (k.stages i).begun ≡ true
      → (k.stages i).spawned < (k.stages i).modules
      → Step k (spawn i k)
  signals :
      (k : Kernel) (i : ℕ)
      → (k.stages i).begun ≡ true
      → (k.stages i).spawned ≡ (k.stages i).modules
      → Step k (signal_running i k)
  becomes_healthy : (k : Kernel) → k.starting ≡ waiting → Step k (become_healthy k)
  times_out : (k : Kernel) → k.starting ≡ waiting → Step k (time_out k)
  stops : (k : Kernel) → Step k (stop k)
  kills :
      (k : Kernel) (i : ℕ)
      → k.stopping ≡ true
      → k.left ≡ suc i
      → (k.stages i).running ≡ true
      → Step k (kill i k)
  exits : (k : Kernel) (i : ℕ) → 0 < (k.stages i).live → Step k (exit_module i k)
  fails : (k : Kernel) (i : ℕ) → 0 < (k.stages i).live → Step k (fail_module i k)
  cancels : (k : Kernel) (i : ℕ) → Step k (cancel i k)
  terminates :
      (k : Kernel) (i : ℕ)
      → k.stopping ≡ true
      → k.left ≡ suc i
      → (k.stages i).told ≡ true
      → (k.stages i).live ≡ 0
      → Step k (terminate i k)

pub data Reach (k : Kernel) : Kernel → Type 0 where
  here : Reach k k
  further : {l m : Kernel} → Reach k l → Step l m → Reach k m
