-- ===== src/Conc/Scheduler/Progress.antt =====
-- That the runners of pkg/conc/scheduler/scheduler.go get done.
use Prim.Native.String.{String}
use mathlib.Core.Path.{subst}
use gosoline.Prelude.{
  ℕ, zero, suc, ◌+◌, ◌<◌, ◌≡◌, refl, sym, ap, ◌∙◌, ◌⊎◌, inl, inr, true, List, [], ◌∷◌, ◌++◌, concat,
  length, length-append, All, arith,
}
use gosoline.Conc.Scheduler.Batches.{arrived}
use gosoline.Conc.Scheduler.{
  Job, Result, success, failure, Answer, Event, no_batch, create_batches, keys_of, providers_of,
  answer_all, Pool, idle_runners, start_run, PoolStep, takes, sends, Reach, here, further,
}
use gosoline.Conc.Scheduler.Answers.{
  count, is_cancelled, results, channels, pending, waiting, create_batches_all, every_job_answered,
}

module _ {T E : Type 0} where
  length-answer_all :
      {P : Type 0}
      → (zero_value : T) (outcome : Result (List (String × T)) E) (batch : List (Job P))
      → length (answer_all zero_value outcome batch) ≡ length batch
  unfolding answer_all
  length-answer_all zero_value outcome [] = refl
  length-answer_all zero_value (success values) (job ∷ batch) =
      ap suc (length-answer_all zero_value (success values) batch)
  length-answer_all zero_value (failure err) (job ∷ batch) =
      ap suc (length-answer_all zero_value (failure err) batch)

  -- How many results the runners have still to send.
  abbrev to_send : List (List (Answer T E)) → ℕ
  to_send [] = 0
  to_send (answers ∷ runners) = length answers + to_send runners

  to_send-middle :
      (front back : List (List (Answer T E))) (answers : List (Answer T E))
      → to_send (front ++ answers ∷ back) ≡ to_send front + length answers + to_send back
  to_send-middle [] back answers = omega arith
  to_send-middle (first ∷ front) back answers = omega (arith, to_send-middle front back answers)

  length-middle :
      (front back : List (List (Answer T E))) (xs ys : List (Answer T E))
      → length (front ++ xs ∷ back) ≡ length (front ++ ys ∷ back)
  length-middle [] back xs ys = refl
  length-middle (first ∷ front) back xs ys = ap suc (length-middle front back xs ys)

  abbrev IsIdle : List (Answer T E) → Type 0
  IsIdle answers = answers ≡ []

  record Busy (runners : List (List (Answer T E))) : Type 0 where
    front : List (List (Answer T E))
    answer : Answer T E
    answers : List (Answer T E)
    back : List (List (Answer T E))
    split : runners ≡ front ++ (answer ∷ answers) ∷ back

  -- A runner has something to send, or none has.
  Busy-cases : (runners : List (List (Answer T E))) → Busy runners ⊎ All IsIdle runners
  Busy-cases [] = inr tt
  Busy-cases ((answer ∷ answers) ∷ runners) =
      inl (record { front = []; answer = answer; answers = answers; back = runners; split = refl })
  Busy-cases ([] ∷ runners) = elim (Busy-cases runners) [
    | inr idle ↦ inr (refl, idle)
    | inl busy ↦ inl (record {
      front = [] ∷ busy.front;
      answer = busy.answer;
      answers = busy.answers;
      back = busy.back;
      split = ap (λ t. [] ∷ t) busy.split;
    })
  ]

  pending-idle :
      (c : ℕ) (runners : List (List (Answer T E))) → All IsIdle runners → pending c runners ≡ 0
  pending-idle c [] h = refl
  pending-idle c (answers ∷ runners) (e, h) =
      omega (arith, ap (λ t. count c (channels t)) e, pending-idle c runners h)

  to_send-idle : (runners : List (List (Answer T E))) → All IsIdle runners → to_send runners ≡ 0
  to_send-idle [] h = refl
  to_send-idle (answers ∷ runners) (e, h) = omega (arith, ap length e, to_send-idle runners h)

to_send-start : (T E : Type 0) (n : ℕ) → to_send (idle_runners {T = T} {E = E} n) ≡ 0
to_send-start T E zero = refl
to_send-start T E (suc n) = omega (arith, to_send-start T E n)

length-idle_runners : (T E : Type 0) (n : ℕ) → length (idle_runners {T = T} {E = E} n) ≡ n
length-idle_runners T E zero = refl
length-idle_runners T E (suc n) = omega (arith, length-idle_runners T E n)

-- A batch is taken, and each of its jobs is answered.
abbrev to_run : {P : Type 0} → List (List (Job P)) → ℕ
to_run [] = 0
to_run (batch ∷ batches) = 1 + length batch + to_run batches

to_run_lem :
    {P : Type 0}
    → (batches : List (List (Job P))) → to_run batches ≡ length batches + length (concat batches)
to_run_lem [] = omega arith
to_run_lem (batch ∷ batches) =
    omega (arith, to_run_lem batches, length-append batch (concat batches))

module _ {P T E : Type 0} (zero_value : T)
    (Returns : List String → List P → Result (List (String × T)) E → Type 0) where
  abbrev work : Pool P T E → ℕ
  work p = to_send p.runners + to_run p.batch_queue

  PoolStep-work :
      {p q : Pool P T E}
      → PoolStep zero_value Returns p q
      → (work q + 1 ≡ work p) × (length q.runners ≡ length p.runners)
  PoolStep-work (takes batch batch_queue front back sent outcome h) = (
    omega (
      arith,
      to_send-middle front back [],
      to_send-middle front back (answer_all zero_value outcome batch),
      length-answer_all zero_value outcome batch,
    ),
    length-middle front back (answer_all zero_value outcome batch) [],
  )
  PoolStep-work (sends batch_queue front back answer answers sent) = (
    omega (arith, to_send-middle front back answers, to_send-middle front back (answer ∷ answers)),
    length-middle front back answers (answer ∷ answers),
  )

  -- How many steps a run has.
  abbrev pub steps : {p q : Pool P T E} → Reach zero_value Returns p q → ℕ
  steps here = 0
  steps (further r s) = 1 + steps r

  Reach-work :
      {p q : Pool P T E}
      → (r : Reach zero_value Returns p q)
      → (steps r + work q ≡ work p) × (length q.runners ≡ length p.runners)
  Reach-work here = (omega arith, refl)
  Reach-work (further r s) =
      let (a, b) = Reach-work r in let (c, d) = PoolStep-work s in (omega (arith, a, c), d ∙ b)

  abbrev pub Next : Pool P T E → Type 0
  Next p = (q : Pool P T E) × PoolStep zero_value Returns p q

  Busy-Next : (p : Pool P T E) → Busy p.runners → Next p
  Busy-Next p busy =
      subst (λ rs. Next (record { batch_queue = p.batch_queue; runners = rs; sent = p.sent }))
        (sym busy.split)
        (_, sends p.batch_queue busy.front busy.back busy.answer busy.answers p.sent)

  module _
      (returns : (keys : List String) (providers : List P)
        → (outcome : Result (List (String × T)) E) × Returns keys providers outcome) where
    idle-Next :
        (batch : List (Job P)) (batch_queue : List (List (Job P)))
        (runners : List (List (Answer T E))) (sent : List (Answer T E))
        → All IsIdle runners
        → 0 < length runners
        → Next (record { batch_queue = batch ∷ batch_queue; runners = runners; sent = sent })
    idle-Next batch batch_queue [] sent h p = absurd (omega (arith, p))
    idle-Next batch batch_queue (answers ∷ runners) sent (e, h) p =
        let (outcome, can) = returns (keys_of batch) (providers_of batch) in
        subst
          (λ a.
            Next (record { batch_queue = batch ∷ batch_queue; runners = a ∷ runners; sent = sent }))
          (sym e) (_, takes batch batch_queue [] runners sent outcome can)

    Next-cases :
        (batch_queue : List (List (Job P))) (runners : List (List (Answer T E)))
        (sent : List (Answer T E))
        → 0 < length runners
        → Next (record { batch_queue = batch_queue; runners = runners; sent = sent })
          ⊎ ((batch_queue ≡ []) × All IsIdle runners)
    Next-cases [] runners sent p = elim (Busy-cases runners) [
      | inl busy ↦
          inl (Busy-Next (record { batch_queue = []; runners = runners; sent = sent }) busy)
      | inr idle ↦ inr (refl, idle)
    ]
    Next-cases (batch ∷ rest) runners sent p = elim (Busy-cases runners) [
      | inl busy ↦
          inl
            (Busy-Next (record { batch_queue = batch ∷ rest; runners = runners; sent = sent }) busy)
      | inr idle ↦ inl (idle-Next batch rest runners sent idle p)
    ]

    -- With at least one runner, a positive batch size and batch runners that return, once the context
    -- is cancelled, a run of the runners, in whatever order, either has fewer steps than there are
    -- batches and jobs that arrived, and some runner can take a batch or send a result, or has exactly
    -- as many, and then each channel has been sent as many results as jobs with that channel arrived.
    pub runners_get_done :
        (runner_count max_batch_size : ℕ) (events : List (Event P)) (p : Pool P T E)
        → 0 < runner_count
        → 0 < max_batch_size
        → is_cancelled events ≡ true
        → (r : Reach zero_value Returns
            (start_run runner_count (create_batches max_batch_size no_batch events).0)
            p)
        → let n =
            length (create_batches max_batch_size (no_batch {P = P}) events).0
            + length (arrived events) in
          (Next p × (steps r < n))
          ⊎ ((steps r ≡ n)
              × ((c : ℕ) → count c (channels p.sent) ≡ count c (results (arrived events))))
    runners_get_done runner_count max_batch_size events p some_runner h e r =
        let b = (create_batches max_batch_size (no_batch {P = P}) events).0 in
        let (counts, same) = Reach-work r in
        let jobs = ap length (create_batches_all max_batch_size events h e) in
        let idle = to_send-start T E runner_count in
        let many = length-idle_runners T E runner_count in
        elim (Next-cases p.batch_queue p.runners p.sent (omega (arith, same, many, some_runner))) [
          | inl (q, step) ↦
              inl
                ((q, step), omega (arith, (PoolStep-work step).0, counts, idle, to_run_lem b, jobs))
          | inr (empty, done) ↦ inr (
            omega (
              arith,
              counts,
              idle,
              to_run_lem b,
              jobs,
              ap to_run empty,
              to_send-idle p.runners done,
            ),
            λ c. omega (
              arith,
              every_job_answered zero_value Returns runner_count max_batch_size events p c h e r,
              pending-idle c p.runners done,
              ap (waiting c) empty,
            ),
          )
        ]
