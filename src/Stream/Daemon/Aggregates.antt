-- ===== src/Stream/Daemon/Aggregates.antt =====
-- What the producer daemon of pkg/stream/producer_daemon.go hands on of a call of Write.
use mathlib.Core.List.{append_assoc, append-nil}
use mathlib.Core.Bool.{false≢true}
use gosoline.Prelude.{
  ◌≡◌, refl, sym, ap, ◌∙◌, inl, inr, Bool, true, false, Option, none, some, List, [], ◌∷◌, ◌++◌,
  map, leb, Bool-cases, Option-cases, is_some, concat, if◌then◌else◌,
}
use gosoline.Stream.Message.{Message, Bytes}
use gosoline.Stream.Aggregator.{AggregateFlush}
use gosoline.Stream.Partitioned.{Inner}
use gosoline.Stream.Daemon.{
  DaemonSettings, Daemon, message_of, messages_of, prepend, aggregate_messages, apply_aggregation,
  append_result, append_messages, write,
}
use gosoline.Stream.Daemon.Sends.{
  Contract, yields_all, ones, sent, yields_all-append, yields_all-message_of, append_messages-Sends,
}

abbrev pub all_of : Option (List Message) → List Message
all_of none = []
all_of (some msgs) = msgs

module _ {A X : Type 0} (inner : Inner A) (marshal : Message → Option Bytes)
    (settings : DaemonSettings) (contract : Contract inner marshal settings X) where
  open contract use {json, one, yields, holds}

  abbrev pub all_yields : List Message → List X
  all_yields msgs = yields_all inner marshal settings contract msgs

  abbrev pub all_ones : List (Option Message) → List X
  all_ones batch = ones inner marshal settings contract batch

  pub prepend_lem :
      (fs : List AggregateFlush) (p : Option (List Message) × A)
      → is_some (prepend inner marshal settings fs p).0 ≡ true
      → (all_yields (all_of (prepend inner marshal settings fs p).0)
            ++ holds (prepend inner marshal settings fs p).1
          ≡ concat (map (λ f. yields (message_of settings f)) fs)
            ++ (all_yields (all_of p.0) ++ holds p.1))
        × (is_some p.0 ≡ true)
  prepend_lem fs (none, a) h = absurd (false≢true h)
  prepend_lem fs (some msgs, a) h = (
    ap (λ t. t ++ holds a)
          (yields_all-append inner marshal settings contract (map (message_of settings) fs) msgs
            ∙ ap (λ t. t ++ all_yields msgs)
                (yields_all-message_of inner marshal settings contract fs))
        ∙ append_assoc (concat (map (λ f. yields (message_of settings f)) fs)) (all_yields msgs)
            (holds a),
    refl,
  )

  pub aggregate_messages_lem :
      (batch : List (Option Message)) (a : A)
      → is_some (aggregate_messages inner marshal settings batch a).0 ≡ true
      → all_yields (all_of (aggregate_messages inner marshal settings batch a).0)
          ++ holds (aggregate_messages inner marshal settings batch a).1
        ≡ holds a ++ all_ones batch
  unfolding aggregate_messages
  aggregate_messages_lem [] a h = sym (append-nil (holds a))
  aggregate_messages_lem (none ∷ batch) a h = absurd (false≢true h)
  aggregate_messages_lem (some msg ∷ batch) a h = elim (Option-cases (inner.write a msg).0) [
    | inl bad ↦ absurd (false≢true (rw (bad, aggregate_messages) at h))
    | inr (fs, good) ↦
        let a' = (inner.write a msg).1 in
        let (p, q) =
          prepend_lem fs (aggregate_messages inner marshal settings batch a')
            (rw (good, aggregate_messages) at h) in
        rw (good, aggregate_messages)
          (p
            ∙ ap (λ t. concat (map (λ f. yields (message_of settings f)) fs) ++ t)
                (aggregate_messages_lem batch a' q)
            ∙ sym (
                append_assoc (concat (map (λ f. yields (message_of settings f)) fs)) (holds a')
                  (all_ones batch))
            ∙ ap (λ t. t ++ all_ones batch) (contract.written a msg fs good)
            ∙ append_assoc (holds a) (one msg ∷ []) (all_ones batch))
  ]

  messages_of_lem :
      (batch : List (Option Message))
      → leb settings.aggregation_size 1 ≡ true
      → is_some (messages_of batch) ≡ true
      → all_yields (all_of (messages_of batch)) ≡ all_ones batch
  messages_of_lem [] s h = refl
  messages_of_lem (none ∷ batch) s h = absurd (false≢true h)
  messages_of_lem (some msg ∷ batch) s h = elim (Option-cases (messages_of batch)) [
    | inl bad ↦ absurd (false≢true (rw bad at h))
    | inr (msgs, good) ↦
        let rest : all_yields msgs ≡ all_ones batch =
          rw good at (messages_of_lem batch s (rw good refl)) in
        rw good (ap (λ t. t ++ all_yields msgs) (contract.plain s msg) ∙ ap (λ t. one msg ∷ t) rest)
  ]

  -- what was sent, and then what is held
  abbrev pub content : Daemon A → List X
  content d = sent inner marshal settings contract d ++ holds d.aggregator

  -- A daemon that is open, and holds no aggregate if it does not aggregate.
  pub record IsReady (d : Daemon A) : Type 0 where
    pub open_channel : d.out_ch.closed ≡ false
    pub flag : d.batcher.with_json_encoding ≡ json
    pub idle : leb settings.aggregation_size 1 ≡ true → holds d.aggregator ≡ []

  -- the result of the aggregation goes on to the batcher
  pub append_result-Delivers :
      (r : Option (List Message) × A) (d : Daemon A) (xs : List X)
      → IsReady d
      → (is_some r.0 ≡ true → all_yields (all_of r.0) ++ holds r.1 ≡ holds d.aggregator ++ xs)
      → (is_some r.0 ≡ true → leb settings.aggregation_size 1 ≡ true → holds r.1 ≡ [])
      → (append_result inner marshal settings r d).0 ≡ true
      → (content (append_result inner marshal settings r d).1 ≡ content d ++ xs)
        × IsReady (append_result inner marshal settings r d).1
        × (holds (append_result inner marshal settings r d).1.aggregator ≡ holds r.1)
  append_result-Delivers (none, a) d xs ready keeps idle h = absurd (false≢true h)
  append_result-Delivers (some msgs, a) d xs ready keeps idle h =
      let before : Daemon A = record d { aggregator = a } in
      let after = (append_messages inner marshal settings msgs before).1 in
      let s =
        append_messages-Sends inner marshal settings contract msgs before ready.open_channel
          ready.flag h in
      let same : holds after.aggregator ≡ holds a = ap holds s.aggregator in
      let sent_before = sent inner marshal settings contract d in
      (
        ap (λ t. t ++ holds after.aggregator) s.contents
            ∙ append_assoc sent_before (all_yields msgs) (holds after.aggregator)
            ∙ ap (λ t. sent_before ++ (all_yields msgs ++ t)) same
            ∙ ap (λ t. sent_before ++ t) (keeps refl)
            ∙ sym (append_assoc sent_before (holds d.aggregator) xs),
        record {
          open_channel = s.open_channel;
          flag = s.flag;
          idle = λ small. same ∙ idle refl small;
        },
        same,
      )

  apply_aggregation_lem :
      (batch : List (Option Message)) (d : Daemon A)
      → IsReady d
      → let r = apply_aggregation inner marshal settings batch d.aggregator in
        (is_some r.0 ≡ true
          → all_yields (all_of r.0) ++ holds r.1 ≡ holds d.aggregator ++ all_ones batch)
        × (is_some r.0 ≡ true → leb settings.aggregation_size 1 ≡ true → holds r.1 ≡ [])
  unfolding apply_aggregation
  apply_aggregation_lem batch d ready = elim (Bool-cases (leb settings.aggregation_size 1)) [
    | inl small ↦
        rw (small, apply_aggregation)
          (
            (λ h. rw (ready.idle small) (
                append-nil (all_yields (all_of (messages_of batch)))
                ∙ messages_of_lem batch small h)),
            λ h e. ready.idle small,
          )
    | inr large ↦
        rw (large, apply_aggregation)
          (aggregate_messages_lem batch d.aggregator, λ h e. absurd (false≢true e))
  ]

  abbrev if_running : Bool → List (Option Message) → Daemon A → Bool × Daemon A
  if_running stopped batch d =
      if stopped
      then (false, d)
      else append_result inner marshal settings
          (apply_aggregation inner marshal settings batch d.aggregator) d

  if_running-Delivers :
      (stopped : Bool) (batch : List (Option Message)) (d : Daemon A)
      → IsReady d
      → (if_running stopped batch d).0 ≡ true
      → (content (if_running stopped batch d).1 ≡ content d ++ all_ones batch)
        × IsReady (if_running stopped batch d).1
  if_running-Delivers true batch d ready h = absurd (false≢true h)
  if_running-Delivers false batch d ready h =
      let (keeps, idle) = apply_aggregation_lem batch d ready in
      let (p, q, e) =
        append_result-Delivers (apply_aggregation inner marshal settings batch d.aggregator) d
          (all_ones batch) ready keeps idle h in
      (p, q)

  pub write-Delivers :
      (batch : List (Option Message)) (d : Daemon A)
      → IsReady d
      → (write inner marshal settings batch d).0 ≡ true
      → (content (write inner marshal settings batch d).1 ≡ content d ++ all_ones batch)
        × IsReady (write inner marshal settings batch d).1
  unfolding write
  write-Delivers batch d ready h = if_running-Delivers d.stopped batch d ready h
