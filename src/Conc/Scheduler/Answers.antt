-- ===== src/Conc/Scheduler/Answers.antt =====
-- That every job of pkg/conc/scheduler/scheduler.go is answered once, by runners that work at once.
use mathlib.Core.List.{append-nil}
use Prim.Native.String.{String}
use gosoline.Prelude.{
  ℕ, zero, suc, ◌+◌, ◌<◌, ◌≡◌, refl, sym, ap, ◌∙◌, Bool, true, false, List, [], ◌∷◌, ◌++◌, concat,
  eqb, if◌then◌else◌, arith,
}
use gosoline.Conc.Scheduler.Batches.{arrived, create_batches_fifo, step-cancelled}
use gosoline.Conc.Scheduler.{
  Job, Result, success, failure, Answer, Batching, Event, arrives, ticks, cancelled, no_batch, step,
  create_batches, answer_all, Pool, idle_runners, start_run, PoolStep, takes, sends, Reach, here,
  further,
}

-- how often a number occurs
abbrev pub count : ℕ → List ℕ → ℕ
count c [] = 0
count c (n ∷ ns) = (if eqb n c then 1 else 0) + count c ns

module _ {P : Type 0} where
  abbrev pub is_cancelled : List (Event P) → Bool
  is_cancelled [] = false
  is_cancelled (arrives job ∷ events) = is_cancelled events
  is_cancelled (ticks ∷ events) = is_cancelled events
  is_cancelled (cancelled ∷ events) = true

  create_batches_cancelled :
      (max_batch_size : ℕ) (b : Batching P) (events : List (Event P))
      → is_cancelled events ≡ true
      → (create_batches max_batch_size b events).1.current_batch ≡ []
  unfolding create_batches
  create_batches_cancelled max_batch_size b [] h = cc
  create_batches_cancelled max_batch_size b (arrives job ∷ events) h =
      create_batches_cancelled max_batch_size (step max_batch_size b (arrives job)).1 events h
  create_batches_cancelled max_batch_size b (ticks ∷ events) h =
      create_batches_cancelled max_batch_size (step max_batch_size b ticks).1 events h
  create_batches_cancelled max_batch_size b (cancelled ∷ events) h =
      ap (λ r. r.1.current_batch) (step-cancelled max_batch_size b)

  abbrev pub results : List (Job P) → List ℕ
  results [] = []
  results (job ∷ jobs) = job.result ∷ results jobs

  -- Once the context is cancelled, the batches have the jobs that arrived.
  pub create_batches_all :
      (max_batch_size : ℕ) (events : List (Event P))
      → 0 < max_batch_size
      → is_cancelled events ≡ true
      → concat (create_batches max_batch_size no_batch events).0 ≡ arrived events
  create_batches_all max_batch_size events h e =
      let b = create_batches max_batch_size (no_batch {P = P}) events in
      let (fifo, q, v) =
        create_batches_fifo max_batch_size no_batch events
          (record { below = h; ticks_open = refl }) in
      sym (append-nil (concat b.0))
      ∙ ap (λ t. concat b.0 ++ t) (sym (create_batches_cancelled max_batch_size no_batch events e))
      ∙ fifo

module _ {T E : Type 0} where
  abbrev pub channels : List (Answer T E) → List ℕ
  channels [] = []
  channels (answer ∷ answers) = answer.channel ∷ channels answers

  pub channels-answer_all :
      {P : Type 0}
      → (zero_value : T) (outcome : Result (List (String × T)) E) (batch : List (Job P))
      → channels (answer_all zero_value outcome batch) ≡ results batch
  unfolding answer_all
  channels-answer_all zero_value outcome [] = refl
  channels-answer_all zero_value (success values) (job ∷ batch) =
      ap (λ t. job.result ∷ t) (channels-answer_all zero_value (success values) batch)
  channels-answer_all zero_value (failure err) (job ∷ batch) =
      ap (λ t. job.result ∷ t) (channels-answer_all zero_value (failure err) batch)

  -- How many results the runners have still to send to a channel.
  abbrev pub pending : ℕ → List (List (Answer T E)) → ℕ
  pending c [] = 0
  pending c (answers ∷ runners) = count c (channels answers) + pending c runners

  pending-middle :
      (c : ℕ) (front back : List (List (Answer T E))) (answers : List (Answer T E))
      → pending c (front ++ answers ∷ back)
        ≡ pending c front + count c (channels answers) + pending c back
  pending-middle c [] back answers = omega arith
  pending-middle c (first ∷ front) back answers = omega (arith, pending-middle c front back answers)

  sent-snoc :
      (c : ℕ) (sent : List (Answer T E)) (answer : Answer T E)
      → count c (channels (sent ++ answer ∷ []))
        ≡ count c (channels sent) + count c (answer.channel ∷ [])
  sent-snoc c [] answer = omega arith
  sent-snoc c (first ∷ sent) answer = omega (arith, sent-snoc c sent answer)

pending-idle : (T E : Type 0) (c n : ℕ) → pending c (idle_runners {T = T} {E = E} n) ≡ 0
pending-idle T E c zero = refl
pending-idle T E c (suc n) = omega (arith, pending-idle T E c n)

module _ {P : Type 0} where
  results-append :
      (c : ℕ) (front back : List (Job P))
      → count c (results (front ++ back)) ≡ count c (results front) + count c (results back)
  results-append c [] back = omega arith
  results-append c (job ∷ front) back = omega (arith, results-append c front back)

  -- How many jobs of the batches in the queue wait on a channel.
  abbrev pub waiting : ℕ → List (List (Job P)) → ℕ
  waiting c [] = 0
  waiting c (batch ∷ batches) = count c (results batch) + waiting c batches

  waiting_lem :
      (c : ℕ) (batches : List (List (Job P)))
      → waiting c batches ≡ count c (results (concat batches))
  waiting_lem c [] = refl
  waiting_lem c (batch ∷ batches) =
      omega (arith, waiting_lem c batches, results-append c batch (concat batches))

module _ {P T E : Type 0} (zero_value : T)
    (Returns : List String → List P → Result (List (String × T)) E → Type 0) where
  abbrev total : ℕ → Pool P T E → ℕ
  total c p = count c (channels p.sent) + pending c p.runners + waiting c p.batch_queue

  PoolStep-total :
      (c : ℕ) → {p q : Pool P T E} → PoolStep zero_value Returns p q → total c q ≡ total c p
  PoolStep-total c (takes batch batch_queue front back sent outcome h) = omega (
    arith,
    pending-middle c front back [],
    pending-middle c front back (answer_all zero_value outcome batch),
    ap (count c) (channels-answer_all zero_value outcome batch),
  )
  PoolStep-total c (sends batch_queue front back answer answers sent) = omega (
    arith,
    pending-middle c front back answers,
    pending-middle c front back (answer ∷ answers),
    sent-snoc c sent answer,
  )

  Reach-total : (c : ℕ) → {p q : Pool P T E} → Reach zero_value Returns p q → total c q ≡ total c p
  Reach-total c here = refl
  Reach-total c (further r s) = PoolStep-total c s ∙ Reach-total c r

  -- However many runners work at once, in whatever order they take batches and send results, and whatever
  -- their batch runners return: once the context is cancelled, each channel was sent as many results, is
  -- still to be sent as many by a runner and is waited on by as many jobs of the queue, as there are jobs
  -- with that channel that arrived before. So a job with a channel of its own is sent at most one
  -- result, and has been sent one once the queue is empty and the runners have nothing to send. The size
  -- of a batch is positive, and a batch runner that was called returns.
  pub every_job_answered :
      (runner_count max_batch_size : ℕ) (events : List (Event P)) (p : Pool P T E) (c : ℕ)
      → 0 < max_batch_size
      → is_cancelled events ≡ true
      → Reach zero_value Returns
          (start_run runner_count (create_batches max_batch_size no_batch events).0)
          p
      → count c (channels p.sent) + pending c p.runners + waiting c p.batch_queue
        ≡ count c (results (arrived events))
  every_job_answered runner_count max_batch_size events p c h e r =
      let b = create_batches max_batch_size (no_batch {P = P}) events in
      Reach-total c r
      ∙ omega (
        arith,
        pending-idle T E c runner_count,
        waiting_lem c b.0,
        ap (λ jobs. count c (results jobs)) (create_batches_all max_batch_size events h e),
      )
