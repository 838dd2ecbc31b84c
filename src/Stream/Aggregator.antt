-- ===== src/Stream/Aggregator.antt =====
-- `producerDaemonAggregator` of pkg/stream/producer_daemon_aggregator.go: messages are written as a
-- JSON array through a writer, and the array is flushed when it is full.
pub mod Arrays
pub mod Lossless
use Prim.Native.String.{String}
use gosoline.Prelude.{
  ℕ, ◌+◌, ◌-◌, ◌*◌, ◌/◌, Bool, true, false, not, ◌&&◌, ◌||◌, Option, none, some, List, [], ◌∷◌,
  ◌++◌, ltb, leb, eqb, length, assign, string_comparable, if◌then◌else◌,
}
use gosoline.Stream.Message.{Message, Attributes, Bytes}

abbrev pub json_array_start : Bytes
json_array_start = b'[' ∷ []

abbrev pub json_array_sep : Bytes
json_array_sep = b',' ∷ []

abbrev pub json_array_end : Bytes
json_array_end = b']' ∷ []

abbrev gzip_max_expected_buffer : ℕ
gzip_max_expected_buffer = 8192

pub data CompressionType : Type 0 where
  compression_none compression_gzip : CompressionType

-- What the package uses of others: a writer into a buffer (gzip's, or the one that passes all on),
-- which gives the bytes that a call adds to the buffer, and does not fail, as the buffer is in
-- memory; base64; json.Marshal; strconv.Itoa; and the float32 that estimates a size.
pub record Env (W R : Type 0) : Type 0 where
  pub new_writer : CompressionType → W
  pub write : W → Bytes → Bytes × W
  pub close : W → Bytes
  pub base64 : Bytes → Bytes
  pub marshal : Message → Option Bytes
  pub itoa : ℕ → String
  pub one : R
  pub ratio : ℕ → ℕ → R
  pub scale : ℕ → R → ℕ

pub record AggregateFlush : Type 0 where
  pub attributes : Attributes
  pub body : Bytes
  pub message_count : ℕ

pub record Aggregator (W R : Type 0) : Type 0 where
  pub max_messages : ℕ
  pub max_bytes : ℕ
  pub compression : CompressionType
  pub attributes : Attributes
  pub encode_base64 : Bool
  pub buffer : Bytes
  pub writer : W
  pub message_count : ℕ
  pub uncompressed_bytes : ℕ
  pub expected_compression_ratio : R

-- `for k, v := range attributes { a.attributes[k] = v }`
unfoldable pub assign_all : Attributes → Attributes → Attributes
assign_all [] into = into
assign_all ((k, v) ∷ rest) into = assign_all rest (assign k v into)

module _ {W R : Type 0} (env : Env W R) where
  -- bytes go through the writer
  unfoldable pub emit : Aggregator W R → Bytes → Aggregator W R
  emit a bytes =
      let (out, w) = env.write a.writer bytes in
      record a {
        buffer = a.buffer ++ out;
        writer = w;
        uncompressed_bytes = a.uncompressed_bytes + length bytes;
      }

  unfoldable pub reset : Aggregator W R → Aggregator W R
  unfolding emit
  reset a =
      emit
        (record a {
          buffer = [];
          writer = env.new_writer a.compression;
          message_count = 0;
          uncompressed_bytes = 0;
        })
        json_array_start

  -- what NewProducerDaemonAggregator makes of the compression
  abbrev effective_max_bytes : CompressionType → ℕ → ℕ
  effective_max_bytes compression_none max_bytes = max_bytes
  effective_max_bytes compression_gzip max_bytes =
      if ltb gzip_max_expected_buffer max_bytes
      then max_bytes - gzip_max_expected_buffer
      else max_bytes

  abbrev with_compression : CompressionType → Attributes → Attributes
  with_compression compression_none attributes = attributes
  with_compression compression_gzip attributes = assign "compression" "application/gzip" attributes

  abbrev pub is_gzip : CompressionType → Bool
  is_gzip compression_none = false
  is_gzip compression_gzip = true

  -- the struct of NewProducerDaemonAggregator, with the attribute sets joined: later ones win
  unfoldable pub configured : ℕ → ℕ → CompressionType → Attributes → Aggregator W R
  unfolding assign_all
  configured aggregation_size aggregation_max_size compression attributes = record {
    max_messages = aggregation_size;
    max_bytes = effective_max_bytes compression aggregation_max_size;
    compression = compression;
    attributes =
        with_compression compression
          (assign_all attributes (("encoding", "application/json") ∷ []));
    encode_base64 = is_gzip compression;
    buffer = [];
    writer = env.new_writer compression;
    message_count = 0;
    uncompressed_bytes = 0;
    expected_compression_ratio = env.one;
  }

  -- NewProducerDaemonAggregator
  unfoldable pub new_aggregator : ℕ → ℕ → CompressionType → Attributes → Aggregator W R
  unfolding reset configured
  new_aggregator aggregation_size aggregation_max_size compression attributes =
      reset (configured aggregation_size aggregation_max_size compression attributes)

  unfoldable get_current_size : Aggregator W R → ℕ → ℕ
  get_current_size a new_message_size =
      let current_size = length a.buffer + new_message_size + 1 in
      if a.encode_base64 then current_size * 4 / 3 else current_size

  -- write
  unfoldable pub write_encoded : Aggregator W R → Bytes → Aggregator W R
  unfolding emit
  write_encoded a encoded =
      let b = if ltb 0 a.message_count then emit a json_array_sep else a in
      let c = emit b encoded in record c { message_count = c.message_count + 1 }

  -- the aggregate that Flush returns, of the aggregator with its array closed
  unfoldable pub aggregate : Aggregator W R → AggregateFlush
  unfolding assign_all
  aggregate a =
      let bytes = a.buffer ++ env.close a.writer in
      record {
        attributes =
            assign_all a.attributes (("goso.aggregate.count", env.itoa a.message_count) ∷ []);
        body = if a.encode_base64 then env.base64 bytes else bytes;
        message_count = a.message_count;
      }

  -- the compression ratio is learned from an aggregate that has messages
  unfoldable pub learn : AggregateFlush → Aggregator W R → Aggregator W R
  learn f a =
      if ltb 0 a.message_count
      then record a { expected_compression_ratio = env.ratio (length f.body) a.uncompressed_bytes }
      else a

  unfoldable pub flush : Aggregator W R → List AggregateFlush × Aggregator W R
  unfolding emit reset aggregate learn
  flush a =
      let closed = emit a json_array_end in
      let f = aggregate closed in (f ∷ [], reset (learn f closed))

  unfoldable pub flush_if : Bool → Aggregator W R → List AggregateFlush × Aggregator W R
  unfolding flush
  flush_if test a = if test then flush a else ([], a)

  -- the two tests of Write
  unfoldable pub is_full_with : Aggregator W R → ℕ → Bool
  unfolding get_current_size
  is_full_with a expected_size =
      ltb 0 a.message_count
      && (not (eqb a.max_bytes 0) && leb a.max_bytes (get_current_size a expected_size))

  unfoldable pub is_full : Aggregator W R → Bool
  unfolding get_current_size
  is_full a =
      leb a.max_messages a.message_count
      || (not (eqb a.max_bytes 0) && leb a.max_bytes (get_current_size a 0))

  -- Write, once the message is encoded
  unfoldable pub write_bytes : Aggregator W R → Bytes → List AggregateFlush × Aggregator W R
  unfolding flush_if is_full_with is_full write_encoded
  write_bytes a encoded =
      let (first, b) =
        flush_if (is_full_with a (env.scale (length encoded) a.expected_compression_ratio)) a in
      let c = write_encoded b encoded in
      let (second, d) = flush_if (is_full c) c in (first ++ second, d)

  -- Write: an error changes nothing
  unfoldable pub write : Aggregator W R → Message → Option (List AggregateFlush) × Aggregator W R
  unfolding write_bytes
  write a msg = elim (env.marshal msg) [
    | none ↦ (none, a)
    | some encoded ↦ let (flushes, b) = write_bytes a encoded in (some flushes, b)
  ]

  -- The aggregates that a run of encoded messages makes, in order, and the aggregator after it.
  unfoldable pub write_all : Aggregator W R → List Bytes → List AggregateFlush × Aggregator W R
  unfolding write_bytes
  write_all a [] = ([], a)
  write_all a (x ∷ xs) =
      let (flushes, b) = write_bytes a x in let (more, c) = write_all b xs in (flushes ++ more, c)
