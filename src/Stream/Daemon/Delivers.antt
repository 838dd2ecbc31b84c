-- ===== src/Stream/Daemon/Delivers.antt =====
-- The producer daemon of pkg/stream/producer_daemon.go delivers every message, over an aggregator that keeps
-- their order.
use mathlib.Core.List.{append_assoc, append-nil}
use mathlib.Core.Bool.{false≢true}
use mathlib.Core.Path.{subst}
use gosoline.Prelude.{
  ◌≡◌, refl, sym, ap, ◌∙◌, Bool, true, false, Option, List, [], ◌∷◌, ◌++◌, concat,
}
use gosoline.Stream.Message.{Message, Bytes}
use gosoline.Stream.Partitioned.{Inner}
use gosoline.Stream.Daemon.{
  DaemonSettings, Daemon, Event, writes, ticks, flush_all, close, step, and_ok, run,
}
use gosoline.Stream.Daemon.Sends.{Contract, reads_all, sent}
use gosoline.Stream.Daemon.Aggregates.{all_ones, content, IsReady, write-Delivers}
use gosoline.Stream.Daemon.Flushes.{flush_all-Flushes}

module _ {A X : Type 0} (inner : Inner A) (marshal : Message → Option Bytes)
    (settings : DaemonSettings) (contract : Contract inner marshal settings X) where
  open contract use {json, one, yields, holds}

  abbrev pub arrived : List (Event inner marshal settings) → List X
  arrived [] = []
  arrived (writes batch ∷ events) = all_ones inner marshal settings contract batch ++ arrived events
  arrived (ticks ∷ events) = arrived events

  step-Delivers :
      (x : Event inner marshal settings) (d : Daemon A)
      → IsReady inner marshal settings contract d
      → (step inner marshal settings x d).0 ≡ true
      → (content inner marshal settings contract (step inner marshal settings x d).1
          ≡ content inner marshal settings contract d ++ arrived (x ∷ []))
        × IsReady inner marshal settings contract (step inner marshal settings x d).1
  unfolding step
  step-Delivers (writes batch) d ready h =
      let (p, q) = write-Delivers inner marshal settings contract batch d ready h in
      (
        p
            ∙ ap (λ t. content inner marshal settings contract d ++ t)
                (sym (append-nil (all_ones inner marshal settings contract batch))),
        q,
      )
  step-Delivers ticks d ready h =
      let f = flush_all-Flushes inner marshal settings contract d ready in
      (f.contents h ∙ sym (append-nil (content inner marshal settings contract d)), f.ready h)

  arrived-cons :
      (x : Event inner marshal settings) (xs : List (Event inner marshal settings))
      → arrived (x ∷ xs) ≡ arrived (x ∷ []) ++ arrived xs
  arrived-cons (writes batch) xs =
      ap (λ t. t ++ arrived xs) (sym (append-nil (all_ones inner marshal settings contract batch)))
  arrived-cons ticks xs = refl

  and_ok_lem :
      (ok : Bool) (r : Bool × Daemon A)
      → (and_ok inner marshal settings ok r).0 ≡ true
      → (ok ≡ true) × (r.0 ≡ true) × ((and_ok inner marshal settings ok r).1 ≡ r.1)
  and_ok_lem true r h = (refl, h, refl)
  and_ok_lem false r h = absurd (false≢true h)

  run-Delivers :
      (xs : List (Event inner marshal settings)) (d : Daemon A)
      → IsReady inner marshal settings contract d
      → (run inner marshal settings xs d).0 ≡ true
      → (content inner marshal settings contract (run inner marshal settings xs d).1
          ≡ content inner marshal settings contract d ++ arrived xs)
        × IsReady inner marshal settings contract (run inner marshal settings xs d).1
  unfolding run
  run-Delivers [] d ready h = (sym (append-nil (content inner marshal settings contract d)), ready)
  run-Delivers (x ∷ xs) d ready h =
      let now = step inner marshal settings x d in
      let (ok, fine, e) = and_ok_lem now.0 (run inner marshal settings xs now.1) h in
      let (p, q) = step-Delivers x d ready ok in
      let (pp, qq) = run-Delivers xs now.1 q fine in
      (
        ap (content inner marshal settings contract) e
            ∙ pp
            ∙ ap (λ t. t ++ arrived xs) p
            ∙ append_assoc (content inner marshal settings contract d) (arrived (x ∷ []))
                (arrived xs)
            ∙ ap (λ t. content inner marshal settings contract d ++ t) (sym (arrived-cons x xs)),
        subst (IsReady inner marshal settings contract) (sym e) qq,
      )

  -- With an aggregator that gives back each content once and in the order of the messages (Contract),
  -- which one that spreads messages over partitions does not, and with messages that a reader can decode:
  -- messages that are written to an open daemon, between ticks, reach its channel. If no call fails, then
  -- once the daemon is closed, the batches that were put into the channel have the contents that were
  -- sent or held before and then those of the messages, each once and in order.
  pub delivers_all :
      (xs : List (Event inner marshal settings)) (d : Daemon A)
      → IsReady inner marshal settings contract d
      → (run inner marshal settings xs d).0 ≡ true
      → (close inner marshal settings (run inner marshal settings xs d).1).0 ≡ true
      → reads_all inner marshal settings contract (
          concat
            (close inner marshal settings (run inner marshal settings xs d).1).1.out_ch.batches)
        ≡ content inner marshal settings contract d ++ arrived xs
  unfolding close
  delivers_all xs d ready h ok =
      let (p, q) = run-Delivers xs d ready h in
      let e = (run inner marshal settings xs d).1 in
      let f = flush_all-Flushes inner marshal settings contract e q in
      let last = (flush_all inner marshal settings e).1 in
      let out = reads_all inner marshal settings contract (concat last.out_ch.batches) in
      sym (append-nil out)
      ∙ ap (λ ms. out ++ reads_all inner marshal settings contract ms) (sym (f.empty ok))
      ∙ sym (append-nil (sent inner marshal settings contract last))
      ∙ ap (λ t. sent inner marshal settings contract last ++ t) (sym (f.none_held ok))
      ∙ f.contents ok
      ∙ p
