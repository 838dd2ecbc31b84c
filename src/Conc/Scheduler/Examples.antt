-- ===== src/Conc/Scheduler/Examples.antt =====
-- A run of the scheduler of pkg/conc/scheduler, with batches of two jobs.
use Prim.Native.String.{String}
use gosoline.Prelude.{ℕ, ◌+◌, ◌<◌, ◌≡◌, ◌⊎◌, refl, length, List, [], ◌∷◌, ◌++◌, concat, All, arith}
use gosoline.Conc.Scheduler.{
  Job, Result, success, failure, Answer, Event, arrives, ticks, cancelled, no_batch, step,
  create_batches, answer_all, Pool, start_run, takes, sends, Reach, here, further,
}
use gosoline.Conc.Scheduler.Batches.{IsValid, IsBatch, create_batches_fifo}
use gosoline.Conc.Scheduler.Answers.{results, count, channels, pending, waiting, every_job_answered}
use gosoline.Conc.Scheduler.Progress.{steps, Next, runners_get_done}

abbrev job : ℕ → Job ℕ
job n = record { key = "key"; provider = n; result = n }

abbrev events : List (Event ℕ)
events =
    arrives (job 4) ∷ arrives (job 5) ∷ arrives (job 6) ∷ ticks ∷ arrives (job 7) ∷ cancelled ∷ []

create_batches_fifo_example :
    (concat (create_batches 2 no_batch events).0
        ++ (create_batches 2 no_batch events).1.current_batch
      ≡ job 4 ∷ job 5 ∷ job 6 ∷ job 7 ∷ [])
    × All (IsBatch 2) (create_batches 2 no_batch events).0
    × IsValid 2 (create_batches 2 no_batch events).1
create_batches_fifo_example =
    create_batches_fifo 2 no_batch events (record { below = omega arith; ticks_open = refl })

abbrev batches : List (List (Job ℕ))
batches = (create_batches 2 no_batch events).0

-- The batch runner succeeds for two jobs or more, and fails for one.
abbrev Returns : List String → List ℕ → Result (List (String × ℕ)) ℕ → Type 0
Returns (key ∷ []) providers outcome = outcome ≡ failure 500
Returns keys providers outcome = outcome ≡ success (("key", 1) ∷ [])

abbrev good : ℕ → Answer ℕ ℕ
good n = record { channel = n; value = success 1 }

abbrev bad : ℕ → Answer ℕ ℕ
bad n = record { channel = n; value = failure 500 }

-- The second of two runners, which has the second batch, is the first to send its result.
abbrev overtaken : Pool ℕ ℕ ℕ
overtaken = record {
  batch_queue = (job 7 ∷ []) ∷ [];
  runners = (good 4 ∷ good 5 ∷ []) ∷ [] ∷ [];
  sent = bad 6 ∷ [];
}

overtaken-Reach : Reach 0 Returns (start_run 2 batches) overtaken
unfolding create_batches step answer_all
overtaken-Reach =
    further
      (further
        (further here (
          takes (job 4 ∷ job 5 ∷ []) ((job 6 ∷ []) ∷ (job 7 ∷ []) ∷ []) [] ([] ∷ []) []
            (success (("key", 1) ∷ [])) refl))
        (takes (job 6 ∷ []) ((job 7 ∷ []) ∷ []) ((good 4 ∷ good 5 ∷ []) ∷ []) [] [] (failure 500)
          refl))
      (sends ((job 7 ∷ []) ∷ []) ((good 4 ∷ good 5 ∷ []) ∷ []) [] (bad 6) [] [])

every_job_answered_example :
    count 6 (channels overtaken.sent)
      + pending 6 overtaken.runners
      + waiting 6 overtaken.batch_queue
    ≡ 1
every_job_answered_example =
    every_job_answered 0 Returns 2 2 events overtaken 6 (omega arith) refl overtaken-Reach

-- The batch runner always fails.
abbrev Fails : List String → List ℕ → Result (List (String × ℕ)) ℕ → Type 0
Fails keys providers outcome = outcome ≡ failure 500

abbrev one_event : List (Event ℕ)
one_event = arrives (job 4) ∷ cancelled ∷ []

abbrev answered : Pool ℕ ℕ ℕ
answered = record { batch_queue = []; runners = [] ∷ [] ∷ []; sent = bad 4 ∷ [] }

answered-Reach : Reach 0 Fails (start_run 2 (create_batches 2 no_batch one_event).0) answered
unfolding create_batches step answer_all
answered-Reach =
    further (further here (takes (job 4 ∷ []) [] [] ([] ∷ []) [] (failure 500) refl))
      (sends [] [] ([] ∷ []) (bad 4) [] [])

runners_get_done_example :
    let n = length (create_batches 2 no_batch one_event).0 + length (job 4 ∷ []) in
    (Next 0 Fails answered × (steps 0 Fails answered-Reach < n))
    ⊎ ((steps 0 Fails answered-Reach ≡ n)
        × ((c : ℕ) → count c (channels answered.sent) ≡ count c (results (job 4 ∷ []))))
runners_get_done_example =
    runners_get_done 0 Fails (λ keys providers. (failure 500, refl)) 2 2 one_event answered
      (omega arith) (omega arith) refl answered-Reach
