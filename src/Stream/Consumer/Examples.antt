-- ===== src/Stream/Consumer/Examples.antt =====
-- Runs of the consumer of pkg/stream/consumer.go, with a callback that refuses each second message.
use gosoline.Prelude.{
  ℕ, ◌+◌, ◌%◌, ◌≡◌, refl, Bool, true, false, ◌&&◌, some, List, [], ◌∷◌, ◌++◌, eqb, length, All,
}
use gosoline.Stream.Message.{Message}
use gosoline.Stream.ConsumerBase.{
  Effect, acked, found, at_least_once, at_most_once, AggregateMessageMode, Settings, State,
  build_retry_message,
}
use gosoline.Stream.ConsumerBase.Retries.{IsRetried, put_if}
use gosoline.Stream.Consumer.{
  consumed, Callback, process, process_single_message, process_aggregate_message,
}
use gosoline.Stream.Consumer.Settles.{
  is_refused, is_settled, fate, ack_if, process_single_message_settles,
}
use gosoline.Stream.Consumer.Aggregates.{
  refused_count, aggregate_drops_refused, aggregate_retries_refused,
}

abbrev message : ℕ → Message
message n = record { attributes = []; body = n ∷ [] }

abbrev three : List Message
three = message 1 ∷ message 2 ∷ message 3 ∷ []

abbrev picky : Callback ℕ ℕ
picky = record {
  is_done = λ n. false;
  get_model = λ a n. (found n, n);
  decode = λ m n. some (n, []);
  decode_aggregate = λ m. some three;
  consume = λ n a w. (consumed (eqb (n % 2) 1), w + 1);
  new_v4 = λ n. ("id", n);
}

abbrev settings : Bool → AggregateMessageMode → Settings
settings native mode = record {
  retry_enabled = true;
  native_retry = native;
  acknowledgeable = true;
  aggregate_message_mode = mode;
}

abbrev fresh : State ℕ
fresh = record { world = 0; effects = [] }

process_single_message_settles_example :
    (w : ℕ) × ((process_single_message picky
        (settings false at_most_once)
        (message 7)
        fresh).effects
      ≡ put_if
          (is_refused (fate picky (message 7) 0) && true && true)
          (build_retry_message picky.new_v4 (message 7) w).0
        ++ ack_if true (message 7) (is_settled (fate picky (message 7) 0)))
process_single_message_settles_example =
    process_single_message_settles picky (settings false at_most_once) (message 7) fresh

aggregate_drops_refused_example :
    (process_aggregate_message picky (settings true at_least_once) (message 9) fresh).effects
    ≡ acked (message 9) true ∷ []
aggregate_drops_refused_example =
    aggregate_drops_refused picky (settings true at_least_once) (message 9) three fresh refl refl
      refl refl

aggregate_retries_refused_example :
    (puts : List Effect) × ((process_aggregate_message picky
        (settings false at_least_once)
        (message 9)
        fresh).effects
      ≡ puts ++ acked (message 9) true ∷ [])
    × All IsRetried puts
    × (length puts ≡ refused_count picky (settings false at_least_once) false three fresh)
aggregate_retries_refused_example =
    aggregate_retries_refused picky (settings false at_least_once) refl refl (message 9) three fresh
      refl

-- Two of the three are refused.
two_refused : refused_count picky (settings false at_least_once) false three fresh ≡ 2
unfolding process
two_refused = refl
