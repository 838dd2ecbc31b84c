-- ===== src/Stream/Batcher/Fifo.antt =====
-- The batcher of pkg/stream/producer_daemon_batcher.go keeps every message, in order.
use mathlib.Core.List.{append_assoc, append-nil}
use gosoline.Prelude.{
  ◌≡◌, refl, sym, ap, ◌∙◌, Bool, true, false, List, [], ◌∷◌, ◌++◌, concat, length,
}
use gosoline.Stream.Batcher.{
  Batcher, RawJsonMessage, needs_flush, flush_if, add, append_raw, append_all,
}

messages-flush_if :
    (test : Bool) (b : Batcher) → (flush_if test b).0 ++ (flush_if test b).1.messages ≡ b.messages
unfolding flush_if
messages-flush_if true b = append-nil b.messages
messages-flush_if false b = refl

pub messages-append_raw :
    (b : Batcher) (raw : RawJsonMessage)
    → (append_raw b raw).0 ++ (append_raw b raw).1.messages ≡ b.messages ++ raw ∷ []
unfolding append_raw add
messages-append_raw b raw =
    append_assoc f.0 g.0 g.1.messages
    ∙ ap (λ ms. f.0 ++ ms) (messages-flush_if _ (add f.1 raw))
    ∙ sym (append_assoc f.0 f.1.messages (raw ∷ []))
    ∙ ap (λ ms. ms ++ raw ∷ []) (messages-flush_if _ b)
  where
    f : List RawJsonMessage × Batcher
    f = flush_if (needs_flush b (length raw.body) 1) b

    g : List RawJsonMessage × Batcher
    g = flush_if (needs_flush (add f.1 raw) 0 0) (add f.1 raw)

-- The batches of a run, and then what is left, are what the batcher held and then the messages of
-- the run: none is lost or doubled, and the order is kept.
append_all_fifo :
    (b : Batcher) (raws : List RawJsonMessage)
    → concat (append_all b raws).0 ++ (append_all b raws).1.messages ≡ b.messages ++ raws
unfolding append_all
append_all_fifo b [] = sym (append-nil b.messages)
append_all_fifo b (raw ∷ raws) =
    append_assoc r.0 (concat (append_all r.1 raws).0) (append_all r.1 raws).1.messages
    ∙ ap (λ ms. r.0 ++ ms) (append_all_fifo r.1 raws)
    ∙ sym (append_assoc r.0 r.1.messages raws)
    ∙ ap (λ ms. ms ++ raws) (messages-append_raw b raw)
    ∙ append_assoc b.messages (raw ∷ []) raws
  where
    r : List RawJsonMessage × Batcher
    r = append_raw b raw
