-- ===== src/Stream/Daemon.antt =====
-- `producerDaemon` of pkg/stream/producer_daemon.go: messages go through an aggregator and the batcher into
-- the output channel (output_channel.go). Its lock keeps the calls apart, so that each is one function of
-- its state; the readers of the channel and the timer that ticks are outside of it.
pub mod Sends
pub mod Aggregates
pub mod Flushes
pub mod Delivers
pub mod Drops
mod Noop
mod Examples
use gosoline.Prelude.{
  ℕ, Bool, true, false, Option, none, some, List, [], ◌∷◌, ◌++◌, map, leb, eqb, assign,
  string_comparable, if◌then◌else◌,
}
use gosoline.Stream.Message.{Message, Attributes, Bytes}
use gosoline.Stream.Aggregator.{AggregateFlush, assign_all}
use gosoline.Stream.Partitioned.{Inner}
use gosoline.Stream.Batcher.{Batcher, RawJsonMessage}
use gosoline.Stream.Batcher

pub record DaemonSettings : Type 0 where
  pub aggregation_size : ℕ
  pub message_attributes : Attributes
  pub supports_aggregation : Bool

-- producerDaemonNoopAggregator: an aggregate of each message
abbrev pub noop_aggregator : Inner (Unit {0})
noop_aggregator = record {
  write = λ a msg.
      (some (record { attributes = msg.attributes; body = msg.body; message_count = 1 } ∷ []), a);
  flush = λ a. (some [], a);
}

-- outputChannel: all batches that were ever put into it, the first first
pub record OutputChannel : Type 0 where
  pub batches : List (List RawJsonMessage)
  pub closed : Bool

pub record Daemon (A : Type 0) : Type 0 where
  pub aggregator : A
  pub batcher : Batcher
  pub out_ch : OutputChannel
  pub stopped : Bool

-- outputChannel.Write: a closed channel drops the batch
unfoldable pub write_channel : List RawJsonMessage → OutputChannel → OutputChannel
write_channel batch ch = if ch.closed then ch else record ch { batches = ch.batches ++ batch ∷ [] }

-- outputChannel.Close
abbrev close_channel : OutputChannel → OutputChannel
close_channel ch = record ch { closed = true }

-- NewMessage, of two sets of attributes, and BuildAggregateMessage
unfoldable pub new_message : Bytes → Attributes → Attributes → Message
unfolding assign_all
new_message body attributes more = record {
  attributes = assign_all more (assign_all attributes []);
  body = body;
}

unfoldable pub build_aggregate_message : Bytes → Attributes → Attributes → Message
unfolding new_message
build_aggregate_message body attributes more =
    let msg = new_message body attributes more in
    record msg { attributes = assign "goso.aggregate" "true" msg.attributes }

-- the message that is made of an aggregate
unfoldable pub message_of : DaemonSettings → AggregateFlush → Message
unfolding build_aggregate_message
message_of settings f =
    if settings.supports_aggregation
    then build_aggregate_message f.body settings.message_attributes f.attributes
    else new_message f.body settings.message_attributes f.attributes

-- A WritableMessage, which is a *Message or not (none).
abbrev pub messages_of : List (Option Message) → Option (List Message)
messages_of [] = some []
messages_of (none ∷ batch) = none
messages_of (some msg ∷ batch) = elim (messages_of batch) [
  | none ↦ none
  | some msgs ↦ some (msg ∷ msgs)
]

-- an aggregate of no message is not sent
abbrev pub not_empty : List AggregateFlush → List AggregateFlush
not_empty [] = []
not_empty (f ∷ fs) = let rest = not_empty fs in if eqb f.message_count 0 then rest else f ∷ rest

module _ {A : Type 0} (inner : Inner A) (marshal : Message → Option Bytes)
    (settings : DaemonSettings) where
  abbrev pub prepend : List AggregateFlush → Option (List Message) × A → Option (List Message) × A
  prepend ready (none, a) = (none, a)
  prepend ready (some result, a) = (some (map (message_of settings) ready ++ result), a)

  -- the loop of applyAggregation: after an error, what was ready before is dropped
  unfoldable pub aggregate_messages : List (Option Message) → A → Option (List Message) × A
  unfolding message_of
  aggregate_messages [] a = (some [], a)
  aggregate_messages (none ∷ batch) a = (none, a)
  aggregate_messages (some msg ∷ batch) a =
      let (ready, a') = inner.write a msg in
      elim ready [ none ↦ (none, a') | some fs ↦ prepend fs (aggregate_messages batch a') ]

  -- applyAggregation
  unfoldable pub apply_aggregation : List (Option Message) → A → Option (List Message) × A
  unfolding aggregate_messages
  apply_aggregation batch a =
      if leb settings.aggregation_size 1 then (messages_of batch, a) else aggregate_messages batch a

  -- a batch that is ready goes to the channel, an empty one does not
  abbrev pub send : List RawJsonMessage → Batcher → Daemon A → Daemon A
  send [] b d = record d { batcher = b }
  send (raw ∷ raws) b d = record d { batcher = b; out_ch = write_channel (raw ∷ raws) d.out_ch }

  -- The loops over the batcher of Write and flushAll: whether all went well, and the daemon.
  unfoldable pub append_messages : List Message → Daemon A → Bool × Daemon A
  unfolding Batcher.append write_channel
  append_messages [] d = (true, d)
  append_messages (msg ∷ msgs) d =
      let (flushed, b) = Batcher.append marshal d.batcher msg in
      elim flushed [
        | none ↦ (false, record d { batcher = b })
        | some raws ↦ append_messages msgs (send raws b d)
      ]

  abbrev pub append_result : Option (List Message) × A → Daemon A → Bool × Daemon A
  append_result (none, a) d = (false, record d { aggregator = a })
  append_result (some msgs, a) d = append_messages msgs (record d { aggregator = a })

  -- Write
  unfoldable pub write : List (Option Message) → Daemon A → Bool × Daemon A
  unfolding apply_aggregation append_messages
  write batch d =
      if d.stopped then (false, d) else append_result (apply_aggregation batch d.aggregator) d

  -- flushAggregate
  unfoldable pub flush_aggregate : A → Option (List Message) × A
  unfolding message_of
  flush_aggregate a =
      let (aggregates, a') = inner.flush a in
      elim aggregates [
        | none ↦ (none, a')
        | some fs ↦ (some (map (message_of settings) (not_empty fs)), a')
      ]

  -- flushBatch
  unfoldable pub flush_batch : Daemon A → Daemon A
  unfolding Batcher.flush write_channel
  flush_batch d = let (ready, b) = Batcher.flush d.batcher in send ready b d

  abbrev pub then_flush_batch : Bool × Daemon A → Bool × Daemon A
  then_flush_batch (true, d) = (true, flush_batch d)
  then_flush_batch (false, d) = (false, d)

  -- flushAll, which a tick and close call
  unfoldable pub flush_all : Daemon A → Bool × Daemon A
  unfolding flush_aggregate flush_batch
  flush_all d = then_flush_batch (append_result (flush_aggregate d.aggregator) d)

  -- close
  unfoldable pub close : Daemon A → Bool × Daemon A
  unfolding flush_all
  close d = let (ok, d') = flush_all d in (ok, record d' { out_ch = close_channel d'.out_ch })

  -- A call of Write, or a tick.
  pub data Event : Type 0 where
    writes : List (Option Message) → Event
    ticks : Event

  unfoldable pub step : Event → Daemon A → Bool × Daemon A
  unfolding write flush_all
  step (writes batch) d = write batch d
  step ticks d = flush_all d

  abbrev pub and_ok : Bool → Bool × Daemon A → Bool × Daemon A
  and_ok true r = r
  and_ok false (ok, d) = (false, d)

  -- the events one after the other, and whether all of them went well
  unfoldable pub run : List Event → Daemon A → Bool × Daemon A
  unfolding step
  run [] d = (true, d)
  run (x ∷ xs) d = let (ok, d') = step x d in and_ok ok (run xs d')
