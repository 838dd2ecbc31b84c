-- ===== src/Stream/BatchConsumer/Collects.antt =====
-- Which batches pkg/stream/consumer_batch.go makes of the messages that it receives.
use mathlib.Core.List.{append-nil}
use gosoline.Prelude.{
  ℕ, ◌<◌, ◌≡◌, refl, sym, ap, ◌∙◌, inl, inr, Option, List, [], ◌∷◌, ◌++◌, Bool-cases, arith, length,
  leb, concat, concat_then,
}
use gosoline.Stream.Message.{Message}
use gosoline.Stream.BatchConsumer.{
  ConsumerData, Event, received, ticked, closed, collected, flush_full, step, run,
}

module _ (decode_aggregate : Message → Option (List Message)) (batch_size : ℕ) where
  -- The messages that come with an event, those of an aggregate one by one.
  abbrev pub arrived : List Event → List ConsumerData
  arrived [] = []
  arrived (received cdata ∷ events) = collected decode_aggregate batch_size cdata ++ arrived events
  arrived (ticked ∷ events) = arrived events
  arrived (closed ∷ events) = []

  step_full :
      (more : List ConsumerData)
      → let r = flush_full decode_aggregate batch_size more in
        (concat r.0 ++ r.1 ≡ more) × (0 < batch_size → length r.1 < batch_size)
  step_full more = elim (Bool-cases (leb batch_size (length more))) [
    | inl full ↦ rw full (append-nil (more ++ []) ∙ append-nil more, λ p. p)
    | inr below ↦ rw below (refl, λ p. ground (arith, below))
  ]

  step_lem :
      (batch : List ConsumerData) (event : Event)
      → let r = step decode_aggregate batch_size batch event in
        (concat r.0 ++ r.1 ≡ batch ++ arrived (event ∷ []))
        × (0 < batch_size → length r.1 < batch_size)
  unfolding step
  step_lem batch (received cdata) =
      let (p, q) = step_full (batch ++ collected decode_aggregate batch_size cdata) in
      (p ∙ ap (λ t. batch ++ t) (sym (append-nil (collected decode_aggregate batch_size cdata))), q)
  step_lem batch ticked = (append-nil (batch ++ []), λ p. p)
  step_lem batch closed = (append-nil (batch ++ []), λ p. p)

  -- one event, and then the others
  run_then :
      (batch : List ConsumerData) (event : Event) (events : List Event)
      → length batch < batch_size
      → (let r = step decode_aggregate batch_size batch event in
          let later = run decode_aggregate batch_size r.1 events in
          length r.1 < batch_size
          → (concat later.0 ++ later.1 ≡ r.1 ++ arrived events) × (length later.1 < batch_size))
      → let r = step decode_aggregate batch_size batch event in
        let later = run decode_aggregate batch_size r.1 events in
        (concat (r.0 ++ later.0) ++ later.1 ≡ batch ++ (arrived (event ∷ []) ++ arrived events))
        × (length later.1 < batch_size)
  run_then batch event events h rest =
      let r = step decode_aggregate batch_size batch event in
      let later = run decode_aggregate batch_size r.1 events in
      let (p, q) = step_lem batch event in
      let (pp, qq) = rest (q (omega arith)) in
      (concat_then r.0 later.0 batch r.1 later.1 (arrived (event ∷ [])) (arrived events) p pp, qq)

  -- The batches that are processed, and then what is collected, are what was collected before and then
  -- the messages that arrive until the channel is closed, in order, with those of an aggregate in its
  -- place; and what is collected stays below the size of a batch.
  pub run_fifo :
      (batch : List ConsumerData) (events : List Event)
      → length batch < batch_size
      → let r = run decode_aggregate batch_size batch events in
        (concat r.0 ++ r.1 ≡ batch ++ arrived events) × (length r.1 < batch_size)
  unfolding run
  run_fifo batch [] h = (sym (append-nil batch), h)
  run_fifo batch (closed ∷ events) h = let (p, q) = step_lem batch closed in (p, q (omega arith))
  run_fifo batch (received cdata ∷ events) h =
      let r = step decode_aggregate batch_size batch (received cdata) in
      let (p, q) = run_then batch (received cdata) events h (run_fifo r.1 events) in
      (
        p
            ∙ ap (λ t. batch ++ (t ++ arrived events))
                (append-nil (collected decode_aggregate batch_size cdata)),
        q,
      )
  run_fifo batch (ticked ∷ events) h =
      run_then batch ticked events h
        (run_fifo (step decode_aggregate batch_size batch ticked).1 events)
