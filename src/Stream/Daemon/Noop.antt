-- ===== src/Stream/Daemon/Noop.antt =====
-- The aggregator of pkg/stream/producer_daemon_noop_aggregator.go keeps what the daemon relies on.
use gosoline.Prelude.{
  ◌≡◌, refl, sym, ap, ◌∙◌, false, Option, none, some, List, [], ◌∷◌, ◌++◌, map, concat, arith,
}
use gosoline.Stream.Message.{Message, Bytes}
use gosoline.Stream.Aggregator.{AggregateFlush}
use gosoline.Stream.Batcher.{encode}
use gosoline.Stream.Daemon.{
  DaemonSettings, noop_aggregator, message_of, build_aggregate_message, new_message, not_empty,
}
use gosoline.Stream.Daemon.Sends.{Contract}

abbrev all_flushes : Option (List AggregateFlush) → List AggregateFlush
all_flushes none = []
all_flushes (some fs) = fs

body-message_of :
    (settings : DaemonSettings) (f : AggregateFlush) → (message_of settings f).body ≡ f.body
unfolding message_of build_aggregate_message new_message
body-message_of settings f = ground arith

-- The content of a message is its body, and a message is read without JSON.
noop_aggregator-Contract :
    (marshal : Message → Option Bytes) (settings : DaemonSettings)
    → Contract noop_aggregator marshal settings Bytes
unfolding encode
noop_aggregator-Contract marshal settings = record {
  json = false;
  one = λ m. m.body;
  yields = λ m. m.body ∷ [];
  reads = λ raw. raw.body ∷ [];
  holds = λ a. [];
  reads_encoded = λ b msg raw j h. ground (arith, j, h);
  written = λ a msg fs h.
      ap (λ o. concat (map (λ f. (message_of settings f).body ∷ []) (all_flushes o)) ++ []) (sym h)
      ∙ ap (λ body. body ∷ [])
          (body-message_of settings
            (record { attributes = msg.attributes; body = msg.body; message_count = 1 }));
  flushed = λ a fs h. (
    ap (λ o. concat (map (λ f. (message_of settings f).body ∷ []) (not_empty (all_flushes o))))
        (sym h),
    refl,
  );
  plain = λ small msg. refl;
}
