-- ===== src/Stream/Examples.antt =====
-- Runs of the batcher and of the aggregator of pkg/stream on small messages.
use mathlib.Core.List.{append-nil}
use gosoline.Prelude.{
  ℕ, zero, suc, ◌≤◌, ◌<◌, ◌≡◌, refl, ap, ◌∙◌, true, some, List, [], ◌∷◌, ◌++◌, arith, length,
  concat,
}
use gosoline.Clock.Fake.{pos}
use gosoline.Stream.Message.{Bytes, Message}
use gosoline.Stream.Batcher.{Batcher, RawJsonMessage, append_raw}
use gosoline.Stream.Batcher.Limits.{IsValid, total, append_raw_limits, append_raw_exceeds}
use gosoline.Stream.Aggregator.{Env, CompressionType, new_aggregator, write_all}
use gosoline.Stream.Aggregator.Arrays.{EnvLaws}
use gosoline.Stream.Aggregator.Arrays
use gosoline.Stream.Aggregator.Lossless.{write_all_lossless}
use gosoline.Stream.Partitioned.{Inner, partition_key_attribute, choose, get_explicit_hash_key}
use gosoline.Stream.Partitioned
use gosoline.Stream.Partitioned.Buckets.{write_reaches}

abbrev message : ℕ → RawJsonMessage
message zero = record { attributes = []; body = [] }
message (suc n) = record { attributes = []; body = 120 ∷ (message n).body }

-- At most three messages and ten bytes, with one message of four bytes waiting.
abbrev waiting : Batcher
waiting = record {
  max_messages = 3;
  max_bytes = 10;
  messages = message 4 ∷ [];
  size = 4;
  with_json_encoding = true;
}

waiting-IsValid : IsValid waiting
waiting-IsValid = record { sized = refl; room = omega arith; fits = λ h. omega arith }

append_raw_limits_example :
    (length (append_raw waiting (message 7)).0 ≤ 3)
    × (length (message 7).body < 10 → total (append_raw waiting (message 7)).0 ≤ 10)
append_raw_limits_example = append_raw_limits waiting (message 7) waiting-IsValid

append_raw_exceeds_example : 10 < total (append_raw waiting (message 10)).0
append_raw_exceeds_example =
    append_raw_exceeds waiting (message 10) waiting-IsValid (omega arith) (omega arith) refl

-- A writer that passes all on, and an encoding that marks the text.
abbrev plain_env : Env Unit Unit
plain_env = record {
  new_writer = λ c. tt;
  write = λ w bytes. (bytes, tt);
  close = λ w. [];
  base64 = λ bytes. 64 ∷ bytes;
  marshal = λ m. some m.body;
  itoa = λ n. "n";
  one = tt;
  ratio = λ a b. tt;
  scale = λ n r. n;
}

abbrev unmark : Bytes → Bytes
unmark [] = []
unmark (c ∷ bytes) = bytes

abbrev plain_laws : EnvLaws plain_env
plain_laws = record {
  Wrote = λ c w buffer plain. buffer ≡ plain;
  inflate = λ c bytes. bytes;
  unbase64 = unmark;
  wrote_nothing = λ c. refl;
  wrote_more = λ c w buffer plain bytes h. ap (λ t. t ++ bytes) h;
  inflate_closed = λ c w buffer plain h. append-nil buffer ∙ h;
  unbase64_base64 = λ bytes. refl;
}

abbrev encoded : List Bytes
encoded = (49 ∷ []) ∷ (50 ∷ []) ∷ (51 ∷ 51 ∷ []) ∷ []

pub write_all_lossless_example :
    let start = new_aggregator plain_env 2 0 CompressionType.compression_gzip [] in
    let (flushes, a) = write_all plain_env start encoded in
    (groups : List (List Bytes)) × (pending : List Bytes) × Arrays.AreArraysOf plain_env plain_laws
      CompressionType.compression_gzip true flushes groups
    × (concat groups ++ pending ≡ encoded)
    × Arrays.Holds plain_env plain_laws CompressionType.compression_gzip true a pending
write_all_lossless_example =
    write_all_lossless plain_env plain_laws 2 0 CompressionType.compression_gzip [] encoded

-- Three buckets that count their messages, and no random numbers.
abbrev keys : Partitioned.Env Unit
keys = record {
  set_string = λ text. some (pos 7);
  string_of = λ n. "7";
  md5 = λ text. 5;
  intn = λ n g. (0, g);
}

abbrev counting : Inner ℕ
counting = record { write = λ n msg. (some [], suc n); flush = λ n. (some [], 0) }

abbrev three : Partitioned.Partitioned Unit ℕ
three = record { rand = tt; buckets = 4 ∷ 6 ∷ 8 ∷ [] }

abbrev keyed : Message
keyed = record { attributes = (partition_key_attribute, "customer") ∷ []; body = [] }

write_reaches_example :
    let (index, g) = choose keys counting 3 tt (get_explicit_hash_key keys counting keyed) in
    (before : List ℕ) × (a : ℕ) × (after : List ℕ) × (4 ∷ 6 ∷ 8 ∷ [] ≡ before ++ a ∷ after)
    × (length before ≡ index)
    × (Partitioned.write keys counting three keyed
        ≡ some (some [], record { rand = g; buckets = before ++ suc a ∷ after }))
write_reaches_example = write_reaches keys counting (λ n g h. h) three keyed (omega arith)
