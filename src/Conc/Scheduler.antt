-- ===== src/Conc/Scheduler.antt =====
-- `scheduler` of pkg/conc/scheduler/scheduler.go: jobs are collected into batches (createBatches), and
-- several runners take the batches from a queue and run each at once (Run, executeBatches). The select
-- of createBatches is the event that comes next.
pub mod Batches
pub mod Answers
pub mod Progress
mod Examples
use Prim.Native.String.{String}
use gosoline.Prelude.{
  ℕ, zero, suc, Bool, true, false, none, some, List, [], ◌∷◌, ◌++◌, length, lookup, eqb,
  string_comparable, if◌then◌else◌,
}

-- `P` is a provider, and `result` the channel that the caller of ScheduleJob waits on.
pub record Job (P : Type 0) : Type 0 where
  pub key : String
  pub provider : P
  pub result : ℕ

-- result: success or failure
pub data Result (T E : Type 0) : Type 0 where
  success : T → Result T E
  failure : E → Result T E

-- A result that is sent to a channel.
pub record Answer (T E : Type 0) : Type 0 where
  pub channel : ℕ
  pub value : Result T E

-- What createBatches keeps: the open batch, and whether its ticker runs.
pub record Batching (P : Type 0) : Type 0 where
  pub current_batch : List (Job P)
  pub ticking : Bool

pub data Event (P : Type 0) : Type 0 where
  arrives : Job P → Event P
  ticks : Event P
  cancelled : Event P

-- results[key] of a Go map: the zero value if it is not there
abbrev index : {T : Type 0} → T → List (String × T) → String → T
index zero_value results key = elim (lookup key results) [ none ↦ zero_value | some value ↦ value ]

module _ {P : Type 0} where
  -- flush the batch if needed
  abbrev pub flushed : List (Job P) → List (List (Job P))
  flushed [] = []
  flushed (job ∷ jobs) = (job ∷ jobs) ∷ []

  abbrev pub no_batch : Batching P
  no_batch = record { current_batch = []; ticking = false }

  -- A round of createBatches: the batches that are put into the queue, and what is kept.
  unfoldable pub step : ℕ → Batching P → Event P → List (List (Job P)) × Batching P
  step max_batch_size b (arrives job) =
      let batch = b.current_batch ++ job ∷ [] in
      let ticking = if eqb (length batch) 1 then true else b.ticking in
      if eqb (length batch) max_batch_size
      then (batch ∷ [], no_batch)
      else ([], record { current_batch = batch; ticking = ticking })
  step max_batch_size b ticks = (flushed b.current_batch, no_batch)
  step max_batch_size b cancelled = (flushed b.current_batch, no_batch)

  -- createBatches returns when the context is cancelled.
  unfoldable pub create_batches : ℕ → Batching P → List (Event P) → List (List (Job P)) × Batching P
  unfolding step
  create_batches max_batch_size b [] = ([], b)
  create_batches max_batch_size b (cancelled ∷ events) = step max_batch_size b cancelled
  create_batches max_batch_size b (arrives job ∷ events) =
      let (now, kept) = step max_batch_size b (arrives job) in
      let (later, rest) = create_batches max_batch_size kept events in (now ++ later, rest)
  create_batches max_batch_size b (ticks ∷ events) =
      let (now, kept) = step max_batch_size b ticks in
      let (later, rest) = create_batches max_batch_size kept events in (now ++ later, rest)

  abbrev pub keys_of : List (Job P) → List String
  keys_of [] = []
  keys_of (job ∷ jobs) = job.key ∷ keys_of jobs

  abbrev pub providers_of : List (Job P) → List P
  providers_of [] = []
  providers_of (job ∷ jobs) = job.provider ∷ providers_of jobs

  module _ {T E : Type 0} (zero_value : T) where
    -- what is sent for a batch, given what the runner returned
    unfoldable pub answer_all : Result (List (String × T)) E → List (Job P) → List (Answer T E)
    answer_all outcome [] = []
    answer_all (failure err) (job ∷ jobs) =
        record { channel = job.result; value = failure err } ∷ answer_all (failure err) jobs
    answer_all (success results) (job ∷ jobs) =
        record { channel = job.result; value = success (index zero_value results job.key) }
        ∷ answer_all (success results) jobs

-- Run: the batches that wait in batchQueue, what each of the goroutines of executeBatches has still to
-- send for the batch that it has taken, and what was sent.
pub record Pool (P T E : Type 0) : Type 0 where
  pub batch_queue : List (List (Job P))
  pub runners : List (List (Answer T E))
  pub sent : List (Answer T E)

abbrev pub idle_runners : {T E : Type 0} → ℕ → List (List (Answer T E))
idle_runners zero = []
idle_runners (suc n) = [] ∷ idle_runners n

-- Run, with so many runners; createBatches puts these batches into the queue.
abbrev pub start_run : {P T E : Type 0} → ℕ → List (List (Job P)) → Pool P T E
start_run runner_count batches = record {
  batch_queue = batches;
  runners = idle_runners runner_count;
  sent = [];
}

-- The goroutines of executeBatches, in any order. `Returns` says what the batch runner may return for
-- some keys and their providers.
module _ {P T E : Type 0} (zero_value : T)
    (Returns : List String → List P → Result (List (String × T)) E → Type 0) where
  pub data PoolStep : Pool P T E → Pool P T E → Type 0 where
    -- a runner that has nothing to send takes the next batch, and its batch runner returns
    takes :
        (batch : List (Job P)) (batch_queue : List (List (Job P)))
        (front back : List (List (Answer T E))) (sent : List (Answer T E))
        (outcome : Result (List (String × T)) E)
        → Returns (keys_of batch) (providers_of batch) outcome
        → PoolStep
            (record {
              batch_queue = batch ∷ batch_queue;
              runners = front ++ [] ∷ back;
              sent = sent;
            })
            (record {
              batch_queue = batch_queue;
              runners = front ++ answer_all zero_value outcome batch ∷ back;
              sent = sent;
            })
    -- a runner sends the next result of its batch, for which the caller of ScheduleJob waits
    sends :
        (batch_queue : List (List (Job P))) (front back : List (List (Answer T E)))
        (answer : Answer T E) (answers sent : List (Answer T E))
        → PoolStep
            (record {
              batch_queue = batch_queue;
              runners = front ++ (answer ∷ answers) ∷ back;
              sent = sent;
            })
            (record {
              batch_queue = batch_queue;
              runners = front ++ answers ∷ back;
              sent = sent ++ answer ∷ [];
            })

  pub data Reach (p : Pool P T E) : Pool P T E → Type 0 where
    here : Reach p p
    further : {q r : Pool P T E} → Reach p q → PoolStep q r → Reach p r
