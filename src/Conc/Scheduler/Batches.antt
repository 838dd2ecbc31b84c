-- ===== src/Conc/Scheduler/Batches.antt =====
-- Which batches pkg/conc/scheduler/scheduler.go makes of the jobs that arrive.
use mathlib.Core.List.{append-nil}
use mathlib.Core.Path.{subst}
use gosoline.Prelude.{
  ℕ, ◌+◌, ◌≤◌, ◌<◌, ◌≡◌, refl, sym, ◌∙◌, inl, inr, Bool, true, false, List, [], ◌∷◌, ◌++◌, length,
  length-append, concat, concat_then, eqb, if◌then◌else◌, arith, Bool-cases, All, All-append,
}
use gosoline.Conc.Scheduler.{
  Job, Batching, Event, arrives, ticks, cancelled, flushed, no_batch, step, create_batches,
}

module _ {P : Type 0} where
  -- The jobs that arrive before the context is cancelled.
  abbrev pub arrived : List (Event P) → List (Job P)
  arrived [] = []
  arrived (arrives job ∷ events) = job ∷ arrived events
  arrived (ticks ∷ events) = arrived events
  arrived (cancelled ∷ events) = []

  abbrev is_open : List (Job P) → Bool
  is_open [] = false
  is_open (job ∷ jobs) = true

  -- The open batch is below its size, and the ticker runs exactly while a batch is open.
  pub record IsValid (max_batch_size : ℕ) (b : Batching P) : Type 0 where
    pub below : length b.current_batch < max_batch_size
    pub ticks_open : b.ticking ≡ is_open b.current_batch

  abbrev pub IsBatch : ℕ → List (Job P) → Type 0
  IsBatch max_batch_size batch = (0 < length batch) × (length batch ≤ max_batch_size)

  record Stepped (max_batch_size : ℕ) (b : Batching P) (more : List (Job P))
      (r : List (List (Job P)) × Batching P) : Type 0 where
    fifo : concat r.0 ++ r.1.current_batch ≡ b.current_batch ++ more
    batches : All (IsBatch max_batch_size) r.0
    valid : IsValid max_batch_size r.1

  is_open-snoc : (jobs : List (Job P)) (job : Job P) → is_open (jobs ++ job ∷ []) ≡ true
  is_open-snoc [] job = refl
  is_open-snoc (j ∷ jobs) job = refl

  ticking-snoc :
      (jobs : List (Job P)) (job : Job P) (ticking : Bool)
      → ticking ≡ is_open jobs
      → (if eqb (length (jobs ++ job ∷ [])) 1 then true else ticking) ≡ true
  ticking-snoc [] job ticking h = refl
  ticking-snoc (j ∷ jobs) job ticking h =
      elim (Bool-cases (eqb (length ((j ∷ jobs) ++ job ∷ [])) 1)) [
        | inl p ↦ rw p refl
        | inr p ↦ rw p h
      ]

  arrives_lem :
      (max_batch_size : ℕ) (b : Batching P) (job : Job P)
      → IsValid max_batch_size b
      → Stepped max_batch_size b (job ∷ []) (step max_batch_size b (arrives job))
  unfolding step
  arrives_lem max_batch_size b job h =
      let batch = b.current_batch ++ job ∷ [] in
      let n : length batch ≡ length b.current_batch + 1 =
        length-append b.current_batch (job ∷ []) in
      elim (Bool-cases (eqb (length batch) max_batch_size)) [
        | inl full ↦ rw full (record {
          fifo = append-nil (batch ++ []) ∙ append-nil batch;
          batches = ((omega (arith, n), ground (arith, full)), tt);
          valid = record { below = ground (arith, h); ticks_open = refl };
        })
        | inr less ↦ rw less (record {
          fifo = refl;
          batches = tt;
          valid = record {
            below = ground (arith, less, n, h);
            ticks_open =
                ticking-snoc b.current_batch job b.ticking h.ticks_open
                ∙ sym (is_open-snoc b.current_batch job);
          };
        })
      ]

  concat-flushed : (jobs : List (Job P)) → concat (flushed jobs) ≡ jobs ++ []
  concat-flushed [] = refl
  concat-flushed (job ∷ jobs) = refl

  flushed-IsBatch :
      (max_batch_size : ℕ) (jobs : List (Job P))
      → length jobs < max_batch_size
      → All (IsBatch max_batch_size) (flushed jobs)
  flushed-IsBatch max_batch_size [] h = tt
  flushed-IsBatch max_batch_size (job ∷ jobs) h = ((omega arith, omega (arith, h)), tt)

  flush_lem :
      (max_batch_size : ℕ) (b : Batching P)
      → IsValid max_batch_size b
      → Stepped max_batch_size b [] (flushed b.current_batch, no_batch)
  flush_lem max_batch_size b h = record {
    fifo = append-nil (concat (flushed b.current_batch)) ∙ concat-flushed b.current_batch;
    batches = flushed-IsBatch max_batch_size b.current_batch h.below;
    valid = record { below = omega (arith, h.below); ticks_open = refl };
  }

  flush_step :
      (max_batch_size : ℕ) (b : Batching P) (event : Event P)
      → step max_batch_size b event ≡ (flushed b.current_batch, no_batch)
      → IsValid max_batch_size b
      → Stepped max_batch_size b [] (step max_batch_size b event)
  flush_step max_batch_size b event e h =
      subst (Stepped max_batch_size b []) (sym e) (flush_lem max_batch_size b h)

  step-ticks :
      (max_batch_size : ℕ) (b : Batching P)
      → step max_batch_size b ticks ≡ (flushed b.current_batch, no_batch)
  unfolding step
  step-ticks max_batch_size b = refl

  pub step-cancelled :
      (max_batch_size : ℕ) (b : Batching P)
      → step max_batch_size b cancelled ≡ (flushed b.current_batch, no_batch)
  unfolding step
  step-cancelled max_batch_size b = refl

  -- What holds of a run after one step more.
  abbrev Ran : ℕ → List (Job P) → List (Job P) → List (List (Job P)) × Batching P → Type 0
  Ran max_batch_size front more r =
      (concat r.0 ++ r.1.current_batch ≡ front ++ more)
      × All (IsBatch max_batch_size) r.0
      × IsValid max_batch_size r.1

  step-Ran :
      (max_batch_size : ℕ) (b : Batching P) (more : List (Job P)) (events : List (Event P))
      (s : List (List (Job P)) × Batching P)
      → Stepped max_batch_size b more s
      → let r = create_batches max_batch_size s.1 events in
        Ran max_batch_size s.1.current_batch (arrived events) r
        → Ran max_batch_size b.current_batch (more ++ arrived events) (s.0 ++ r.0, r.1)
  step-Ran max_batch_size b more events s h (p, q, v) =
      let r = create_batches max_batch_size s.1 events in
      (
        concat_then s.0 r.0 b.current_batch s.1.current_batch r.1.current_batch more
            (arrived events) h.fifo p,
        All-append (IsBatch max_batch_size) s.0 r.0 h.batches q,
        v,
      )

  -- The batches that createBatches puts into the queue, and then the batch that is open, are the batch
  -- that was open and then the jobs that arrive, in order. Each batch has at least one job and at most as
  -- many as the limit, the open batch has fewer, and the ticker runs exactly while a batch is open.
  pub create_batches_fifo :
      (max_batch_size : ℕ) (b : Batching P) (events : List (Event P))
      → IsValid max_batch_size b
      → let r = create_batches max_batch_size b events in
        (concat r.0 ++ r.1.current_batch ≡ b.current_batch ++ arrived events)
        × All (IsBatch max_batch_size) r.0
        × IsValid max_batch_size r.1
  unfolding create_batches
  create_batches_fifo max_batch_size b [] h = (sym (append-nil b.current_batch), tt, h)
  create_batches_fifo max_batch_size b (cancelled ∷ events) h =
      let s = flush_step max_batch_size b cancelled (step-cancelled max_batch_size b) h in
      (s.fifo, s.batches, s.valid)
  create_batches_fifo max_batch_size b (ticks ∷ events) h =
      step-Ran max_batch_size b [] events (step max_batch_size b ticks)
        (flush_step max_batch_size b ticks (step-ticks max_batch_size b) h)
        (create_batches_fifo max_batch_size (step max_batch_size b ticks).1 events
          (flush_step max_batch_size b ticks (step-ticks max_batch_size b) h).valid)
  create_batches_fifo max_batch_size b (arrives job ∷ events) h =
      step-Ran max_batch_size b (job ∷ []) events (step max_batch_size b (arrives job))
        (arrives_lem max_batch_size b job h)
        (create_batches_fifo max_batch_size (step max_batch_size b (arrives job)).1 events
          (arrives_lem max_batch_size b job h).valid)
