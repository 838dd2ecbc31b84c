-- ===== src/Stream/Daemon/Flushes.antt =====
-- That flushAll of pkg/stream/producer_daemon.go hands on all that the daemon holds.
use mathlib.Core.List.{append-nil}
use mathlib.Core.Bool.{false≢true}
use gosoline.Prelude.{
  ◌≡◌, refl, ap, ◌∙◌, inl, inr, Bool, true, false, Option, none, some, List, [], ◌∷◌, ◌++◌,
  Option-cases, is_some,
}
use gosoline.Stream.Message.{Message, Bytes}
use gosoline.Stream.Partitioned.{Inner}
use gosoline.Stream.Batcher.{Batcher, RawJsonMessage}
use gosoline.Stream.Batcher
use gosoline.Stream.Daemon.{
  DaemonSettings, Daemon, not_empty, append_result, send, flush_aggregate, flush_batch,
  then_flush_batch, flush_all,
}
use gosoline.Stream.Daemon.Sends.{Contract, sent, Sends, yields_all-message_of, send-Sends}
use gosoline.Stream.Daemon.Aggregates.{all_of, all_yields, content, IsReady, append_result-Delivers}

module _ {A X : Type 0} (inner : Inner A) (marshal : Message → Option Bytes)
    (settings : DaemonSettings) (contract : Contract inner marshal settings X) where
  open contract use {json, one, yields, holds}

  -- Everything that is held goes to the channel.
  flush_aggregate_lem :
      (d : Daemon A)
      → let r = flush_aggregate inner marshal settings d.aggregator in
        is_some r.0 ≡ true
        → (all_yields inner marshal settings contract (all_of r.0) ≡ holds d.aggregator)
          × (holds r.1 ≡ [])
  unfolding flush_aggregate
  flush_aggregate_lem d h = elim (Option-cases (inner.flush d.aggregator).0) [
    | inl bad ↦ absurd (false≢true (rw (bad, flush_aggregate) at h))
    | inr (fs, good) ↦
        let (p, q) = contract.flushed d.aggregator fs good in
        rw (good, flush_aggregate)
          (yields_all-message_of inner marshal settings contract (not_empty fs) ∙ p, q)
  ]

  batcher-send :
      (raws : List RawJsonMessage) (b : Batcher) (d : Daemon A)
      → (send inner marshal settings raws b d).batcher ≡ b
  batcher-send [] b d = refl
  batcher-send (raw ∷ raws) b d = refl

  flush_batch_lem :
      (d : Daemon A)
      → d.out_ch.closed ≡ false
      → d.batcher.with_json_encoding ≡ json
      → Sends inner marshal settings contract d [] (flush_batch inner marshal settings d)
        × ((flush_batch inner marshal settings d).batcher.messages ≡ [])
  unfolding flush_batch Batcher.flush
  flush_batch_lem d o j =
      let r = Batcher.flush d.batcher in
      (
        send-Sends inner marshal settings contract r.0 r.1 d [] o j refl,
        ap (λ b. b.messages) (batcher-send r.0 r.1 d),
      )

  -- What flushAll promises: nothing gets lost, and nothing is held.
  pub record Flushes (d : Daemon A) (r : Bool × Daemon A) : Type 0 where
    pub contents :
        r.0 ≡ true
        → content inner marshal settings contract r.1 ≡ content inner marshal settings contract d
    pub ready : r.0 ≡ true → IsReady inner marshal settings contract r.1
    pub empty : r.0 ≡ true → r.1.batcher.messages ≡ []
    pub none_held : r.0 ≡ true → holds r.1.aggregator ≡ []

  pub then_flush_batch-Flushes :
      (d : Daemon A) (r : Bool × Daemon A)
      → (r.0 ≡ true
          → (content inner marshal settings contract r.1
              ≡ content inner marshal settings contract d ++ [])
            × IsReady inner marshal settings contract r.1
            × (holds r.1.aggregator ≡ []))
      → Flushes d (then_flush_batch inner marshal settings r)
  then_flush_batch-Flushes d (false, e) f = record {
    contents = λ h. absurd (false≢true h);
    ready = λ h. absurd (false≢true h);
    empty = λ h. absurd (false≢true h);
    none_held = λ h. absurd (false≢true h);
  }
  then_flush_batch-Flushes d (true, e) f =
      let (p, q, idle) = f refl in
      let (s, gone) = flush_batch_lem e q.open_channel q.flag in
      let same = ap holds s.aggregator in
      record {
        contents = λ h.
            ap (λ t. t ++ holds (flush_batch inner marshal settings e).aggregator)
              (s.contents ∙ append-nil (sent inner marshal settings contract e))
            ∙ ap (λ t. sent inner marshal settings contract e ++ t) same
            ∙ p
            ∙ append-nil (content inner marshal settings contract d);
        ready = λ h. record {
          open_channel = s.open_channel;
          flag = s.flag;
          idle = λ small. same ∙ idle;
        };
        empty = λ h. gone;
        none_held = λ h. same ∙ idle;
      }

  pub flush_all-Flushes :
      (d : Daemon A)
      → IsReady inner marshal settings contract d
      → Flushes d (flush_all inner marshal settings d)
  unfolding flush_all
  flush_all-Flushes d ready =
      let r = flush_aggregate inner marshal settings d.aggregator in
      let l = flush_aggregate_lem d in
      then_flush_batch-Flushes d (append_result inner marshal settings r d) (λ h.
        let found = append_result-IsSome r d h in
        let (p, q, same) =
          append_result-Delivers inner marshal settings contract r d [] ready
            (λ s. ap (λ t. t ++ holds r.1) (l s).0 ∙ ap (λ t. holds d.aggregator ++ t) (l s).1)
            (λ s small. (l s).1) h in
        (p, q, same ∙ (l found).1))
    where
      append_result-IsSome :
          (r : Option (List Message) × A) (d : Daemon A)
          → (append_result inner marshal settings r d).0 ≡ true
          → is_some r.0 ≡ true
      append_result-IsSome (none, a) d h = absurd (false≢true h)
      append_result-IsSome (some msgs, a) d h = refl
