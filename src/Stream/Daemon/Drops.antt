-- ===== src/Stream/Daemon/Drops.antt =====
-- What Write of pkg/stream/producer_daemon.go drops when a message can not be aggregated.
use mathlib.Core.Bool.{false≢true}
use gosoline.Prelude.{
  ◌≡◌, refl, ap, ◌∙◌, inl, inr, true, false, Option, none, some, List, [], ◌∷◌, ◌++◌, leb, is_some,
  Option-cases,
}
use gosoline.Stream.Message.{Message, Bytes}
use gosoline.Stream.Aggregator.{AggregateFlush}
use gosoline.Stream.Partitioned.{Inner}
use gosoline.Stream.Daemon.{
  DaemonSettings, Daemon, prepend, aggregate_messages, apply_aggregation, write,
}
use gosoline.Stream.Daemon.Sends.{Contract, sent}
use gosoline.Stream.Daemon.Aggregates.{
  all_of, all_ones, all_yields, prepend_lem, aggregate_messages_lem,
}

module _ {A X : Type 0} (inner : Inner A) (marshal : Message → Option Bytes)
    (settings : DaemonSettings) (contract : Contract inner marshal settings X) where
  open contract use {holds}

  -- It is no *Message, or the aggregator returns an error and stays as it is.
  abbrev pub IsRefused : Option Message → A → Type 0
  IsRefused none a = Unit
  IsRefused (some msg) a = inner.write a msg ≡ (none, a)

  IsRefused-aggregate_messages :
      (bad : Option Message) (rest : List (Option Message)) (a : A)
      → IsRefused bad a
      → aggregate_messages inner marshal settings (bad ∷ rest) a ≡ (none, a)
  unfolding aggregate_messages
  IsRefused-aggregate_messages none rest a h = refl
  IsRefused-aggregate_messages (some msg) rest a h =
      rw (ap (λ r. r.0) h, aggregate_messages) (ap (λ r. (none, r.1)) h)

  prepend-rest :
      (fs : List AggregateFlush) (p : Option (List Message) × A)
      → (prepend inner marshal settings fs p).1 ≡ p.1
  prepend-rest fs (none, a) = refl
  prepend-rest fs (some msgs, a) = refl

  aggregate_messages-refused :
      (front : List (Option Message)) (bad : Option Message) (rest : List (Option Message)) (a : A)
      → is_some (aggregate_messages inner marshal settings front a).0 ≡ true
      → IsRefused bad (aggregate_messages inner marshal settings front a).1
      → aggregate_messages inner marshal settings (front ++ bad ∷ rest) a
        ≡ (none, (aggregate_messages inner marshal settings front a).1)
  unfolding aggregate_messages
  aggregate_messages-refused [] bad rest a h r = IsRefused-aggregate_messages bad rest a r
  aggregate_messages-refused (none ∷ front) bad rest a h r = absurd (false≢true h)
  aggregate_messages-refused (some msg ∷ front) bad rest a h r =
      elim (Option-cases (inner.write a msg).0) [
        | inl refused ↦ absurd (false≢true (rw (refused, aggregate_messages) at h))
        | inr (fs, good) ↦
            let a' = (inner.write a msg).1 in
            let later = aggregate_messages inner marshal settings front a' in
            let some_later =
              (prepend_lem inner marshal settings contract fs later
                (rw (good, aggregate_messages) at h)).1 in
            let same = prepend-rest fs later in
            rw (good, aggregate_messages)
              (ap (prepend inner marshal settings fs) (
                  aggregate_messages-refused front bad rest a' some_later
                    (rw same at (rw (good, aggregate_messages) at r)))
                ∙ rw same refl)
      ]

  -- With an aggregator that gives back each content once and in order (Contract), and with aggregation:
  -- if the messages at the front of a call of Write can be aggregated and the one after them is refused,
  -- then Write returns an error, and nothing was put into the channel or the batcher. What the aggregator
  -- held before, also of earlier calls, and the messages at the front are what these made ready and then
  -- what the aggregator still holds: the contents that were made ready are lost, and no others.
  pub write_drops_ready :
      (front : List (Option Message)) (bad : Option Message) (rest : List (Option Message))
      (d : Daemon A)
      → d.stopped ≡ false
      → leb settings.aggregation_size 1 ≡ false
      → is_some (aggregate_messages inner marshal settings front d.aggregator).0 ≡ true
      → IsRefused bad (aggregate_messages inner marshal settings front d.aggregator).1
      → let r = write inner marshal settings (front ++ bad ∷ rest) d in
        let ready = all_of (aggregate_messages inner marshal settings front d.aggregator).0 in
        (r.0 ≡ false)
        × (sent inner marshal settings contract r.1 ≡ sent inner marshal settings contract d)
        × (all_yields inner marshal settings contract ready ++ holds r.1.aggregator
            ≡ holds d.aggregator ++ all_ones inner marshal settings contract front)
  unfolding write apply_aggregation
  write_drops_ready front bad rest d on large good refused =
      let e = aggregate_messages-refused front bad rest d.aggregator good refused in
      rw (on, large, e)
        (refl, refl, aggregate_messages_lem inner marshal settings contract front d.aggregator good)
