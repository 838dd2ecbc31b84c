-- ===== src/Stream/Daemon/Examples.antt =====
-- Runs of the producer daemon of pkg/stream/producer_daemon.go with an aggregator that makes an
-- aggregate of two messages.
use mathlib.Core.Bool.{false≢true}
use gosoline.Prelude.{
  ℕ, ◌≡◌, refl, sym, ap, arith, true, false, Option, none, some, List, [], ◌∷◌, ◌++◌, map, concat,
}
use gosoline.Stream.Message.{Message, Bytes}
use gosoline.Stream.Aggregator.{AggregateFlush}
use gosoline.Stream.Partitioned.{Inner}
use gosoline.Stream.Batcher.{Batcher, encode}
use gosoline.Stream.Batcher
use gosoline.Stream.Daemon.{
  DaemonSettings, Daemon, Event, writes, ticks, message_of, build_aggregate_message, new_message,
  not_empty, append_messages, flush_batch, flush_all, step, aggregate_messages, write, close, run,
}
use gosoline.Stream.Daemon.Sends.{Contract, reads_all, sent}
use gosoline.Stream.Daemon.Aggregates.{all_of, all_ones, all_yields, IsReady, content}
use gosoline.Stream.Daemon.Delivers.{arrived, delivers_all}
use gosoline.Stream.Daemon.Drops.{write_drops_ready}

abbrev marshal : Message → Option Bytes
marshal msg = some msg.body

abbrev settings : DaemonSettings
settings = record { aggregation_size = 2; message_attributes = []; supports_aggregation = false }

abbrev aggregate_of : Bytes → ℕ → AggregateFlush
aggregate_of body count = record { attributes = []; body = body; message_count = count }

-- It holds the first byte of a message until the next one comes, and makes an aggregate of the two.
abbrev hold : Option ℕ → Bytes → Option (List AggregateFlush) × Option ℕ
hold a [] = (none, a)
hold none (b ∷ bs) = (some [], some b)
hold (some c) (b ∷ bs) = (some (aggregate_of (c ∷ b ∷ []) 2 ∷ []), none)

abbrev give : Option ℕ → Option (List AggregateFlush) × Option ℕ
give none = (some [], none)
give (some c) = (some (aggregate_of (c ∷ []) 1 ∷ []), none)

abbrev pairs : Inner (Option ℕ)
pairs = record { write = λ a msg. hold a msg.body; flush = give }

abbrev held : Option ℕ → List ℕ
held none = []
held (some c) = c ∷ []

abbrev first_byte : Bytes → ℕ
first_byte [] = 0
first_byte (b ∷ bs) = b

abbrev all_flushes : Option (List AggregateFlush) → List AggregateFlush
all_flushes none = []
all_flushes (some fs) = fs

abbrev bytes_of : List AggregateFlush → List ℕ
bytes_of fs = concat (map (λ f. (message_of settings f).body) fs)

hold_lem :
    (a : Option ℕ) (body : Bytes) (fs : List AggregateFlush)
    → (hold a body).0 ≡ some fs
    → bytes_of fs ++ held (hold a body).1 ≡ held a ++ first_byte body ∷ []
unfolding message_of build_aggregate_message new_message
hold_lem a [] fs h = absurd (ground (arith, h))
hold_lem none (b ∷ bs) fs h = ap (λ o. bytes_of (all_flushes o) ++ b ∷ []) (sym h)
hold_lem (some c) (b ∷ bs) fs h = ap (λ o. bytes_of (all_flushes o) ++ []) (sym h)

give_lem :
    (a : Option ℕ) (fs : List AggregateFlush)
    → (give a).0 ≡ some fs
    → (bytes_of (not_empty fs) ≡ held a) × (held (give a).1 ≡ [])
unfolding message_of build_aggregate_message new_message
give_lem none fs h = (ap (λ o. bytes_of (not_empty (all_flushes o))) (sym h), refl)
give_lem (some c) fs h = (ap (λ o. bytes_of (not_empty (all_flushes o))) (sym h), refl)

contract : Contract pairs marshal settings ℕ
unfolding message_of build_aggregate_message new_message encode
contract = record {
  json = false;
  one = λ m. first_byte m.body;
  yields = λ m. m.body;
  reads = λ raw. raw.body;
  holds = held;
  reads_encoded = λ b msg raw j h. ground (arith, j, h);
  written = λ a msg fs h. hold_lem a msg.body fs h;
  flushed = give_lem;
  plain = λ small msg. absurd (false≢true small);
}

abbrev batcher : Batcher
batcher = record {
  max_messages = 2;
  max_bytes = 0;
  messages = [];
  size = 0;
  with_json_encoding = false;
}

abbrev daemon : Daemon (Option ℕ)
daemon = record {
  aggregator = none;
  batcher = batcher;
  out_ch = record { batches = []; closed = false };
  stopped = false;
}

abbrev letter : ℕ → Message
letter n = record { attributes = []; body = n ∷ [] }

abbrev events : List (Event pairs marshal settings)
events =
    writes (some (letter 1) ∷ some (letter 2) ∷ some (letter 3) ∷ [])
    ∷ ticks
    ∷ writes (some (letter 4) ∷ [])
    ∷ []

daemon-IsReady : IsReady pairs marshal settings contract daemon
unfolding contract
daemon-IsReady = record { open_channel = refl; flag = refl; idle = λ small. refl }

pub runs_well :
    ((run pairs marshal settings events daemon).0 ≡ true)
    × ((close pairs marshal settings (run pairs marshal settings events daemon).1).0 ≡ true)
unfolding run step write flush_all flush_batch append_messages Batcher.append aggregate_messages
    close
runs_well = (refl, refl)

delivers_all_example :
    reads_all pairs marshal settings contract (
      concat
        (close pairs marshal settings
          (run pairs marshal settings events daemon).1).1.out_ch.batches)
    ≡ content pairs marshal settings contract daemon
      ++ arrived pairs marshal settings contract events
delivers_all_example =
    delivers_all pairs marshal settings contract events daemon daemon-IsReady runs_well.0
      runs_well.1

-- The aggregator holds a message of an earlier call.
abbrev holding : Daemon (Option ℕ)
holding = record daemon { aggregator = some 1 }

abbrev empty : Message
empty = record { attributes = []; body = [] }

write_drops_ready_example :
    let r = write pairs marshal settings (some (letter 2) ∷ some empty ∷ []) holding in
    let ready =
      all_of (aggregate_messages pairs marshal settings (some (letter 2) ∷ []) (some 1)).0 in
    (r.0 ≡ false)
    × (sent pairs marshal settings contract r.1 ≡ sent pairs marshal settings contract holding)
    × (all_yields pairs marshal settings contract ready ++ contract.holds r.1.aggregator
        ≡ contract.holds (some 1)
          ++ all_ones pairs marshal settings contract (some (letter 2) ∷ []))
unfolding aggregate_messages
write_drops_ready_example =
    write_drops_ready pairs marshal settings contract (some (letter 2) ∷ []) (some empty) [] holding
      refl refl refl refl
