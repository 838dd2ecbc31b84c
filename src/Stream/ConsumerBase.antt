-- ===== src/Stream/ConsumerBase.antt =====
-- `baseConsumer` of pkg/stream/consumer_base.go, as far as both consumers share it: how a message is put
-- into retry.
pub mod Retries
use Prim.Native.String.{String}
use gosoline.Prelude.{
  Bool, true, none, some, List, [], ◌∷◌, ◌++◌, lookup, assign, string_comparable, if◌then◌else◌,
}
use gosoline.Stream.Message.{Message}

abbrev attribute_retry : String
attribute_retry = "goso.retry"

abbrev attribute_retry_id : String
attribute_retry_id = "goso.retry.id"

-- What leaves a consumer: Ack and AckBatch of an input, the latter with the name of the source, and Put
-- of the retry handler. All only log an error.
pub data Effect : Type 0 where
  acked : Message → Bool → Effect
  acked_batch : String → List Message → List Bool → Effect
  retried : Message → Effect

-- What GetModel does; `unknown` is an error, and whether the settings ignore it.
pub data ModelAnswer (M : Type 0) : Type 0 where
  found : M → ModelAnswer M
  absent : ModelAnswer M
  unknown : Bool → ModelAnswer M
  panicked : ModelAnswer M

pub data AggregateMessageMode : Type 0 where
  at_least_once at_most_once : AggregateMessageMode

-- The settings, and what the inputs can do: `native_retry` is RetryingInput, and `acknowledgeable`
-- is AcknowledgeableInput.
pub record Settings : Type 0 where
  pub retry_enabled : Bool
  pub native_retry : Bool
  pub acknowledgeable : Bool
  pub aggregate_message_mode : AggregateMessageMode

pub record State (W : Type 0) : Type 0 where
  pub world : W
  pub effects : List Effect

abbrev pub emit : {W : Type 0} → State W → Effect → State W
emit s x = record s { effects = s.effects ++ x ∷ [] }

-- what buildRetryMessage makes of a message that has no retry id
abbrev with_retry_id : Message → String → Message
with_retry_id msg id = record msg {
  attributes = assign attribute_retry_id id (assign attribute_retry "true" msg.attributes);
}

-- `new_v4` makes a uuid
module _ {W : Type 0} (new_v4 : W → String × W) where
  -- buildRetryMessage
  unfoldable pub build_retry_message : Message → W → Message × W
  build_retry_message msg w = elim (lookup attribute_retry_id msg.attributes) [
    | some id ↦ (msg, w)
    | none ↦ let (id, w') = new_v4 w in (with_retry_id msg id, w')
  ]

  -- retry
  unfoldable pub retry : Settings → Message → State W → State W
  unfolding build_retry_message
  retry settings msg s =
      let (message, w) = build_retry_message msg s.world in
      if settings.retry_enabled then emit (record s { world = w }) (retried message) else s
