-- ===== src/Stream/Consumer.antt =====
-- `Consumer` of pkg/stream/consumer.go, with what it uses of `baseConsumer` (consumer_base.go) and of
-- `consumerAcknowledge` (consumer_acknowledge.go): how a message is processed, acknowledged and put into
-- retry. Metrics, traces and the sampling decision, which the callback's result does not depend on, are
-- left out.
pub mod Settles
pub mod Aggregates
mod Examples
use Prim.Native.String.{String}
use gosoline.Prelude.{
  Bool, true, false, not, ◌&&◌, Option, none, some, List, [], ◌∷◌, ◌++◌, if◌then◌else◌,
}
use gosoline.Stream.Message.{Message, Attributes}
use gosoline.Stream.ConsumerBase.{
  acked, ModelAnswer, found, absent, unknown, panicked, AggregateMessageMode, at_least_once,
  at_most_once, Settings, State, emit, retry,
}

-- What Consume does: an error is only logged.
pub data Consumed : Type 0 where
  consumed : Bool → Consumed
  crashed : Consumed

-- What the consumer calls. `W` is the state of the callback and of the world around it.
pub record Callback (W M : Type 0) : Type 0 where
  pub is_done : W → Bool
  pub get_model : Attributes → W → ModelAnswer M × W
  pub decode : Message → M → Option (M × Attributes)
  pub decode_aggregate : Message → Option (List Message)
  pub consume : M → Attributes → W → Consumed × W
  pub new_v4 : W → String × W

abbrev pub is_at_least_once : AggregateMessageMode → Bool
is_at_least_once at_least_once = true
is_at_least_once at_most_once = false

module _ {W M : Type 0} (callback : Callback W M) (settings : Settings) where
  -- Acknowledge
  unfoldable pub acknowledge : Message → Bool → State W → State W
  acknowledge msg ack s = if settings.acknowledgeable then emit s (acked msg ack) else s

  -- recover of a panic, for a message
  unfoldable pub recover : Message → State W → State W
  unfolding retry
  recover msg s = if settings.native_retry then s else retry callback.new_v4 settings msg s

  -- what process does with the result of Consume
  unfoldable pub after_consume : Message → Bool → Consumed × W → State W → Bool × State W
  unfolding retry recover
  after_consume msg has_native_retry (consumed ack, w) s =
      let t = record s { world = w } in
      (ack, if not ack && not has_native_retry then retry callback.new_v4 settings msg t else t)
  after_consume msg has_native_retry (crashed, w) s = (false, recover msg (record s { world = w }))

  abbrev pub after_decode : Message → Bool → Option (M × Attributes) → State W → Bool × State W
  after_decode msg has_native_retry none s = (false, s)
  after_decode msg has_native_retry (some (model, attributes)) s =
      after_consume msg has_native_retry (callback.consume model attributes s.world) s

  -- what process does with the result of GetModel
  unfoldable pub after_model : Message → Bool → ModelAnswer M × W → State W → Bool × State W
  unfolding after_consume recover
  after_model msg has_native_retry (found model, w) s =
      after_decode msg has_native_retry (callback.decode msg model) (record s { world = w })
  after_model msg has_native_retry (absent, w) s = (false, record s { world = w })
  after_model msg has_native_retry (unknown ignorable, w) s = (ignorable, record s { world = w })
  after_model msg has_native_retry (panicked, w) s = (false, recover msg (record s { world = w }))

  -- process
  unfoldable pub process : Message → Bool → State W → Bool × State W
  unfolding retry after_model
  process msg has_native_retry s =
      if callback.is_done s.world
      then (false, if has_native_retry then s else retry callback.new_v4 settings msg s)
      else after_model msg has_native_retry (callback.get_model msg.attributes s.world) s

  -- processSingleMessage
  unfoldable pub process_single_message : Message → State W → State W
  unfolding process acknowledge
  process_single_message msg s =
      let (ack, t) = process msg settings.native_retry s in acknowledge msg ack t

  -- the loop of processAggregateMessage
  unfoldable pub process_batch : Bool → List Message → State W → State W
  unfolding process
  process_batch has_native_retry [] s = s
  process_batch has_native_retry (m ∷ batch) s =
      process_batch has_native_retry batch (process m has_native_retry s).1

  abbrev pub acknowledge_if : Bool → Message → State W → State W
  acknowledge_if true msg s = acknowledge msg true s
  acknowledge_if false msg s = s

  -- what processAggregateMessage does with the messages, if the mode is at least once or not
  abbrev pub process_in_mode : Bool → Message → List Message → State W → State W
  process_in_mode least msg batch s =
      acknowledge_if least msg
        (process_batch (least && settings.native_retry) batch (acknowledge_if (not least) msg s))

  abbrev pub process_decoded : Message → Option (List Message) → State W → State W
  process_decoded msg none s = s
  process_decoded msg (some batch) s =
      process_in_mode (is_at_least_once settings.aggregate_message_mode) msg batch s

  -- processAggregateMessage
  unfoldable pub process_aggregate_message : Message → State W → State W
  unfolding acknowledge process_batch
  process_aggregate_message msg s = process_decoded msg (callback.decode_aggregate msg) s
