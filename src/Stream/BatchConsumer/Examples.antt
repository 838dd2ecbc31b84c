-- ===== src/Stream/BatchConsumer/Examples.antt =====
-- Runs of the batch consumer of pkg/stream/consumer_batch.go.
use Prim.Native.String.{String}
use gosoline.Prelude.{
  IsMap, ℕ, ◌<◌, ◌≡◌, refl, true, false, none, some, List, [], ◌∷◌, ◌++◌, length, lookup, concat,
  All, arith, string_comparable,
}
use gosoline.Stream.ConsumerBase.{Effect, found, at_most_once, Settings, State}
use gosoline.Stream.ConsumerBase.Retries.{IsRetried}
use gosoline.Stream.BatchConsumer.{
  ConsumerData, consumed, BatchCallback, Decoded, Group, ack_effects, fit_acks, decode_messages,
  consume_batch, Event, received, ticked, closed, run,
}
use gosoline.Stream.BatchConsumer.Groups.{pairs_of, group_of}
use gosoline.Stream.BatchConsumer.Acks.{refusals, consume_batch_acks}
use gosoline.Stream.BatchConsumer.Collects.{arrived, run_fifo}

abbrev from_input : ℕ → ConsumerData
from_input n = record {
  msg = record { attributes = []; body = n ∷ [] };
  src = "input";
  acknowledgeable = true;
}

abbrev two : List ConsumerData
two = from_input 1 ∷ from_input 2 ∷ []

-- It gives one ack, whatever the batch.
abbrev lazy : BatchCallback ℕ ℕ
lazy = record {
  is_done = λ n. false;
  get_model = λ a n. (found n, n);
  decode = λ m n. some (n, []);
  decode_aggregate = λ m. none;
  consume = λ ns a w. (consumed (true ∷ []), w);
  new_v4 = λ n. ("id", n);
}

abbrev settings : Settings
settings = record {
  retry_enabled = true;
  native_retry = false;
  acknowledgeable = true;
  aggregate_message_mode = at_most_once;
}

abbrev fresh : State ℕ
fresh = record { world = 0; effects = [] }

abbrev decoded : Decoded ℕ ℕ
decoded = record { kept = two; models = 0 ∷ 0 ∷ []; attributes = [] ∷ [] ∷ []; world = 0 }

consume_batch_acks_example :
    (puts : List Effect) × (groups : List (String × Group)) × ((consume_batch lazy settings two
        fresh).effects
      ≡ puts ++ ack_effects groups)
    × All IsRetried puts
    × (length puts ≡ refusals (fit_acks 2 (true ∷ [])))
    × IsMap groups
    × ((src : String) → lookup src groups ≡ group_of (pairs_of src two (fit_acks 2 (true ∷ []))))
unfolding decode_messages
consume_batch_acks_example =
    consume_batch_acks lazy settings refl refl two fresh decoded (true ∷ []) 0 refl refl refl refl

abbrev events : List Event
events =
    received (from_input 1)
    ∷ received (from_input 2)
    ∷ received (from_input 3)
    ∷ ticked
    ∷ closed
    ∷ []

run_fifo_example :
    (concat (run (λ m. none) 2 [] events).0 ++ (run (λ m. none) 2 [] events).1
      ≡ arrived (λ m. none) 2 events)
    × (length (run (λ m. none) 2 [] events).1 < 2)
run_fifo_example = run_fifo (λ m. none) 2 [] events (omega arith)
