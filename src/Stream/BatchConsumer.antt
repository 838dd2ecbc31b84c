-- ===== src/Stream/BatchConsumer.antt =====
-- `BatchConsumer` of pkg/stream/consumer_batch.go, with AcknowledgeBatch of consumer_acknowledge.go: it
-- collects messages and hands them to the callback in batches. The select of its loop is the event that
-- comes next.
pub mod Groups
pub mod Acks
pub mod Collects
mod Examples
use Prim.Native.String.{String}
use gosoline.Prelude.{
  ℕ, zero, suc, Bool, true, false, not, ◌&&◌, ◌||◌, Option, none, some, List, [], ◌∷◌, ◌++◌, map,
  length, leb, lookup, assign, is_some, string_comparable, if◌then◌else◌,
}
use gosoline.Stream.Message.{Message, Attributes}
use gosoline.Stream.ConsumerBase.{
  Effect, acked_batch, ModelAnswer, found, absent, unknown, panicked, Settings, State, retry,
}

abbrev attribute_aggregate : String
attribute_aggregate = "goso.aggregate"

-- consumerData: `acknowledgeable` is whether its input is AcknowledgeableInput
pub record ConsumerData : Type 0 where
  pub msg : Message
  pub src : String
  pub acknowledgeable : Bool

-- What Consume of a batch does: an error is only logged.
pub data BatchConsumed : Type 0 where
  consumed : List Bool → BatchConsumed
  crashed : BatchConsumed

pub record BatchCallback (W M : Type 0) : Type 0 where
  pub is_done : W → Bool
  pub get_model : Attributes → W → ModelAnswer M × W
  -- a model that is absent is nil, into which nothing can be decoded
  pub decode : Message → M → Option (M × Attributes)
  pub decode_aggregate : Message → Option (List Message)
  pub consume : List M → List Attributes → W → BatchConsumed × W
  pub new_v4 : W → String × W

-- What decodeMessages returns: the messages that were kept, with their models and attributes.
pub record Decoded (W M : Type 0) : Type 0 where
  pub kept : List ConsumerData
  pub models : List M
  pub attributes : List Attributes
  pub world : W

-- The messages and the acks of one source.
pub record Group : Type 0 where
  pub msgs : List Message
  pub acks : List Bool

abbrev pub append_group : Option Group → Message → Bool → Group
append_group none msg ack = record { msgs = msg ∷ []; acks = ack ∷ [] }
append_group (some g) msg ack = record { msgs = g.msgs ++ msg ∷ []; acks = g.acks ++ ack ∷ [] }

-- The first loop of AcknowledgeBatch.
unfoldable pub group_acks :
    List ConsumerData → List Bool → List (String × Group) → List (String × Group)
group_acks [] acks groups = groups
group_acks (cdata ∷ rest) [] groups = groups
group_acks (cdata ∷ rest) (ack ∷ acks) groups =
    let next =
      if cdata.acknowledgeable
      then assign cdata.src (append_group (lookup cdata.src groups) cdata.msg ack) groups
      else groups in
    group_acks rest acks next

-- The second: Go ranges over the sources in any order.
abbrev pub ack_effects : List (String × Group) → List Effect
ack_effects [] = []
ack_effects ((src, g) ∷ groups) = acked_batch src g.msgs g.acks ∷ ack_effects groups

-- AcknowledgeBatch
unfoldable pub acknowledge_batch : {W : Type 0} → List ConsumerData → List Bool → State W → State W
unfolding group_acks
acknowledge_batch batch acks s = record s {
  effects = s.effects ++ ack_effects (group_acks batch acks []);
}

-- As many acks as messages: missing ones are false, and those too many are dropped.
unfoldable pub fit_acks : ℕ → List Bool → List Bool
fit_acks zero acks = []
fit_acks (suc n) [] = false ∷ fit_acks n []
fit_acks (suc n) (ack ∷ acks) = ack ∷ fit_acks n acks

module _ {W M : Type 0} (callback : BatchCallback W M) (settings : Settings) where
  abbrev keep : ConsumerData → Option (M × Attributes) → Decoded W M → Decoded W M
  keep cdata none later = later
  keep cdata (some (model, attributes)) later = record later {
    kept = cdata ∷ later.kept;
    models = model ∷ later.models;
    attributes = attributes ∷ later.attributes;
  }

  abbrev keep_found : ConsumerData → ModelAnswer M → Option (Decoded W M) → Option (Decoded W M)
  keep_found cdata panicked later = none
  keep_found cdata (found model) none = none
  keep_found cdata (found model) (some later) =
      some (keep cdata (callback.decode cdata.msg model) later)
  keep_found cdata absent none = none
  keep_found cdata absent (some later) = some later
  keep_found cdata (unknown ignorable) later = later

  -- decodeMessages: none if GetModel panics
  unfoldable pub decode_messages : List ConsumerData → W → Option (Decoded W M)
  decode_messages [] w = some (record { kept = []; models = []; attributes = []; world = w })
  decode_messages (cdata ∷ batch) w =
      let (answer, w') = callback.get_model cdata.msg.attributes w in
      keep_found cdata answer (decode_messages batch w')

  -- the loop that retries what is not acknowledged
  unfoldable pub retry_refused : List ConsumerData → List Bool → State W → State W
  retry_refused [] acks s = s
  retry_refused (cdata ∷ batch) [] s = s
  retry_refused (cdata ∷ batch) (ack ∷ acks) s =
      let t =
        if not ack && not settings.native_retry
        then retry callback.new_v4 settings cdata.msg s
        else s in
      retry_refused batch acks t

  -- what consumeBatch does with what Consume returns
  unfoldable pub after_consume : List ConsumerData → BatchConsumed × W → State W → State W
  unfolding fit_acks retry_refused acknowledge_batch
  after_consume kept (crashed, w) s = record s { world = w }
  after_consume kept (consumed acks, w) s =
      let fitted = fit_acks (length kept) acks in
      acknowledge_batch kept fitted (retry_refused kept fitted (record s { world = w }))

  abbrev pub after_decode : Option (Decoded W M) → State W → State W
  after_decode none s = s
  after_decode (some d) s = after_consume d.kept (callback.consume d.models d.attributes d.world) s

  unfoldable retry_all : List ConsumerData → State W → State W
  retry_all [] s = s
  retry_all (cdata ∷ batch) s = retry_all batch (retry callback.new_v4 settings cdata.msg s)

  abbrev pub is_nil : List ConsumerData → Bool
  is_nil [] = true
  is_nil (cdata ∷ batch) = false

  -- consumeBatch
  unfoldable pub consume_batch : List ConsumerData → State W → State W
  unfolding after_consume decode_messages retry_all
  consume_batch batch s =
      if callback.is_done s.world
      then if settings.native_retry then s else retry_all batch s
      else if is_nil batch
      then s
      else after_decode (decode_messages batch s.world) s

-- processAggregateMessage: the messages have no source
unfoldable pub disaggregate : ConsumerData → Option (List Message) → List ConsumerData
disaggregate cdata none = []
disaggregate cdata (some msgs) =
    map (λ m. record { msg = m; src = ""; acknowledgeable = cdata.acknowledgeable }) msgs

-- What the select of run gives: a message, a tick, or that the channel is closed.
pub data Event : Type 0 where
  received : ConsumerData → Event
  ticked closed : Event

-- One round of run: the batch that is then processed, if there is one, and what is collected.
module _ (decode_aggregate : Message → Option (List Message)) (batch_size : ℕ) where
  abbrev pub collected : ConsumerData → List ConsumerData
  collected cdata =
      if is_some (lookup attribute_aggregate cdata.msg.attributes)
      then disaggregate cdata (decode_aggregate cdata.msg)
      else cdata ∷ []

  -- processBatch is called on a batch that is full
  abbrev pub flush_full : List ConsumerData → List (List ConsumerData) × List ConsumerData
  flush_full batch = if leb batch_size (length batch) then (batch ∷ [], []) else ([], batch)

  unfoldable pub step : List ConsumerData → Event → List (List ConsumerData) × List ConsumerData
  unfolding disaggregate
  step batch (received cdata) = flush_full (batch ++ collected cdata)
  step batch ticked = (batch ∷ [], [])
  step batch closed = (batch ∷ [], [])

  -- readFromInput, which returns once the channel is closed
  unfoldable pub run : List ConsumerData → List Event → List (List ConsumerData) × List ConsumerData
  unfolding step
  run batch [] = ([], batch)
  run batch (closed ∷ events) = step batch closed
  run batch (received cdata ∷ events) =
      let (now, kept) = step batch (received cdata) in
      let (later, rest) = run kept events in (now ++ later, rest)
  run batch (ticked ∷ events) =
      let (now, kept) = step batch ticked in
      let (later, rest) = run kept events in (now ++ later, rest)
