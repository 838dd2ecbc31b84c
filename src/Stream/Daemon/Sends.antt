-- ===== src/Stream/Daemon/Sends.antt =====
-- What the producer daemon of pkg/stream/producer_daemon.go relies on, and how it hands messages on.
use mathlib.Core.List.{append_assoc, append-nil}
use mathlib.Core.Bool.{true≢false}
use gosoline.Prelude.{
  ◌≡◌, ◌≢◌, refl, sym, ap, ◌∙◌, inl, inr, Bool, true, false, Option, none, some, List, [], ◌∷◌,
  ◌++◌, map, leb, arith, Option-cases, concat, concat-append,
}
use gosoline.Stream.Message.{Message, Bytes}
use gosoline.Stream.Aggregator.{AggregateFlush}
use gosoline.Stream.Partitioned.{Inner}
use gosoline.Stream.Batcher.{Batcher, RawJsonMessage, append_raw, encode, flush_if, add}
use gosoline.Stream.Batcher
use gosoline.Stream.Batcher.Fifo.{messages-append_raw}
use gosoline.Stream.Daemon.{
  DaemonSettings, Daemon, write_channel, message_of, not_empty, send, append_messages,
}

with_json_encoding-append_raw :
    (b : Batcher) (raw : RawJsonMessage)
    → (append_raw b raw).1.with_json_encoding ≡ b.with_json_encoding
unfolding append_raw flush_if add Batcher.flush
with_json_encoding-append_raw b raw = ground arith

pub append_encoded :
    (marshal : Message → Option Bytes) (b : Batcher) (msg : Message) (raw : RawJsonMessage)
    → encode marshal b msg ≡ some raw
    → Batcher.append marshal b msg ≡ (some (append_raw b raw).0, (append_raw b raw).1)
unfolding Batcher.append
append_encoded marshal b msg raw good = rw (good, Batcher.append) refl

abbrev some_or : Option (List RawJsonMessage) → List RawJsonMessage
some_or none = []
some_or (some raws) = raws

module _ {A : Type 0} (inner : Inner A) (marshal : Message → Option Bytes)
    (settings : DaemonSettings) where
  -- What the daemon relies on: `one` is the content of a message, `yields` the contents that a reader
  -- finds in a message that may be an aggregate, and `reads` those that it finds in an encoded one;
  -- `holds` are the contents that an aggregator holds. An aggregator loses and doubles nothing.
  pub record Contract (X : Type 0) : Type 0 where
    pub json : Bool
    pub one : Message → X
    pub yields : Message → List X
    pub reads : RawJsonMessage → List X
    pub holds : A → List X
    pub reads_encoded :
        (b : Batcher) (msg : Message) (raw : RawJsonMessage)
        → b.with_json_encoding ≡ json
        → encode marshal b msg ≡ some raw
        → reads raw ≡ yields msg
    pub written :
        (a : A) (msg : Message) (fs : List AggregateFlush)
        → (inner.write a msg).0 ≡ some fs
        → concat (map (λ f. yields (message_of settings f)) fs) ++ holds (inner.write a msg).1
          ≡ holds a ++ one msg ∷ []
    pub flushed :
        (a : A) (fs : List AggregateFlush)
        → (inner.flush a).0 ≡ some fs
        → (concat (map (λ f. yields (message_of settings f)) (not_empty fs)) ≡ holds a)
          × (holds (inner.flush a).1 ≡ [])
    -- without aggregation
    pub plain : leb settings.aggregation_size 1 ≡ true → (msg : Message) → yields msg ≡ one msg ∷ []

  module _ {X : Type 0} (contract : Contract X) where
    open contract use {json, one, yields, reads, holds}

    abbrev pub reads_all : List RawJsonMessage → List X
    reads_all raws = concat (map reads raws)

    abbrev pub yields_all : List Message → List X
    yields_all msgs = concat (map yields msgs)

    abbrev pub ones : List (Option Message) → List X
    ones [] = []
    ones (none ∷ batch) = ones batch
    ones (some msg ∷ batch) = one msg ∷ ones batch

    -- what was put into the channel, and what the batcher holds
    abbrev pub sent : Daemon A → List X
    sent d = reads_all (concat d.out_ch.batches) ++ reads_all d.batcher.messages

    reads_all-append :
        (xs ys : List RawJsonMessage) → reads_all (xs ++ ys) ≡ reads_all xs ++ reads_all ys
    reads_all-append [] ys = refl
    reads_all-append (x ∷ xs) ys =
        ap (λ t. reads x ++ t) (reads_all-append xs ys)
        ∙ sym (append_assoc (reads x) (reads_all xs) (reads_all ys))

    pub yields_all-append :
        (xs ys : List Message) → yields_all (xs ++ ys) ≡ yields_all xs ++ yields_all ys
    yields_all-append [] ys = refl
    yields_all-append (x ∷ xs) ys =
        ap (λ t. yields x ++ t) (yields_all-append xs ys)
        ∙ sym (append_assoc (yields x) (yields_all xs) (yields_all ys))

    pub yields_all-message_of :
        (fs : List AggregateFlush)
        → yields_all (map (message_of settings) fs)
          ≡ concat (map (λ f. yields (message_of settings f)) fs)
    yields_all-message_of [] = refl
    yields_all-message_of (f ∷ fs) =
        ap (λ t. yields (message_of settings f) ++ t) (yields_all-message_of fs)

    -- One message: what the batcher gives out, and then holds, is what it held and the message.
    pub record Kept (b : Batcher) (msg : Message) (r : Option (List RawJsonMessage) × Batcher)
        : Type 0 where
      pub contents :
          (raws : List RawJsonMessage)
          → r.0 ≡ some raws
          → reads_all raws ++ reads_all r.1.messages ≡ reads_all b.messages ++ yields msg
      pub flag : r.0 ≢ none → r.1.with_json_encoding ≡ json

    pub append-Kept :
        (b : Batcher) (msg : Message)
        → b.with_json_encoding ≡ json
        → Kept b msg (Batcher.append marshal b msg)
    unfolding Batcher.append
    append-Kept b msg j = elim (Option-cases (encode marshal b msg)) [
      | inl bad ↦
          rw (bad, Batcher.append) (record { contents = λ raws h. cc; flag = λ h. absurd (h refl) })
      | inr (raw, good) ↦
          let read : reads raw ≡ yields msg = contract.reads_encoded b msg raw j good in
          let r = append_raw b raw in
          rw (append_encoded marshal b msg raw good) (record {
            contents = λ raws h.
                ap (λ o. reads_all (some_or o) ++ reads_all r.1.messages) (sym h)
                ∙ sym (reads_all-append r.0 r.1.messages)
                ∙ ap reads_all (messages-append_raw b raw)
                ∙ reads_all-append b.messages (raw ∷ [])
                ∙ ap (λ t. reads_all b.messages ++ t) (append-nil (reads raw) ∙ read);
            flag = λ h. with_json_encoding-append_raw b raw ∙ j;
          })
    ]

    -- The daemon hands on these contents, through the batcher.
    pub record Sends (d : Daemon A) (xs : List X) (d' : Daemon A) : Type 0 where
      pub contents : sent d' ≡ sent d ++ xs
      pub flag : d'.batcher.with_json_encoding ≡ json
      pub open_channel : d'.out_ch.closed ≡ false
      pub aggregator : d'.aggregator ≡ d.aggregator

    reads_all-sent :
        (batches : List (List RawJsonMessage)) (batch : List RawJsonMessage)
        → reads_all (concat (batches ++ batch ∷ [])) ≡ reads_all (concat batches) ++ reads_all batch
    reads_all-sent batches batch =
        ap reads_all
          (concat-append batches (batch ∷ []) ∙ ap (λ t. concat batches ++ t) (append-nil batch))
        ∙ reads_all-append (concat batches) batch

    pub send-Sends :
        (raws : List RawJsonMessage) (b : Batcher) (d : Daemon A) (xs : List X)
        → d.out_ch.closed ≡ false
        → b.with_json_encoding ≡ json
        → reads_all raws ++ reads_all b.messages ≡ reads_all d.batcher.messages ++ xs
        → Sends d xs (send inner marshal settings raws b d)
    unfolding write_channel
    send-Sends [] b d xs o j h = record {
      contents =
          ap (λ t. reads_all (concat d.out_ch.batches) ++ t) h
          ∙ sym (
              append_assoc (reads_all (concat d.out_ch.batches)) (reads_all d.batcher.messages) xs);
      flag = j;
      open_channel = o;
      aggregator = refl;
    }
    send-Sends (raw ∷ raws) b d xs o j h = rw o (record {
      contents =
          ap (λ t. t ++ reads_all b.messages) (reads_all-sent d.out_ch.batches (raw ∷ raws))
          ∙ append_assoc (reads_all (concat d.out_ch.batches)) (reads_all (raw ∷ raws))
              (reads_all b.messages)
          ∙ ap (λ t. reads_all (concat d.out_ch.batches) ++ t) h
          ∙ sym (
              append_assoc (reads_all (concat d.out_ch.batches)) (reads_all d.batcher.messages) xs);
      flag = j;
      open_channel = refl;
      aggregator = refl;
    })

    Sends-trans :
        (d d' d'' : Daemon A) (xs ys : List X)
        → Sends d xs d'
        → Sends d' ys d''
        → Sends d (xs ++ ys) d''
    Sends-trans d d' d'' xs ys p q = record {
      contents = q.contents ∙ ap (λ t. t ++ ys) p.contents ∙ append_assoc (sent d) xs ys;
      flag = q.flag;
      open_channel = q.open_channel;
      aggregator = q.aggregator ∙ p.aggregator;
    }

    pub append_messages-Sends :
        (msgs : List Message) (d : Daemon A)
        → d.out_ch.closed ≡ false
        → d.batcher.with_json_encoding ≡ json
        → (append_messages inner marshal settings msgs d).0 ≡ true
        → Sends d (yields_all msgs) (append_messages inner marshal settings msgs d).1
    unfolding append_messages
    append_messages-Sends [] d o j h = record {
      contents = sym (append-nil (sent d));
      flag = j;
      open_channel = o;
      aggregator = refl;
    }
    append_messages-Sends (msg ∷ msgs) d o j h =
        let r = Batcher.append marshal d.batcher msg in
        let kept = append-Kept d.batcher msg j in
        elim (Option-cases r.0) [
          | inl bad ↦ absurd (true≢false (sym (rw (bad, append_messages) at h)))
          | inr (raws, good) ↦
              let now =
                send-Sends raws r.1 d (yields msg) o (kept.flag (λ e. cc))
                  (kept.contents raws good) in
              rw (good, append_messages)
                (Sends-trans d (send inner marshal settings raws r.1 d)
                  (append_messages inner marshal settings msgs
                    (send inner marshal settings raws r.1 d)).1
                  (yields msg) (yields_all msgs) now
                  (append_messages-Sends msgs (send inner marshal settings raws r.1 d)
                    now.open_channel now.flag (rw (good, append_messages) at h)))
        ]
