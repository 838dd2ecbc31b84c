-- ===== src/Stream/BatchConsumer/Acks.antt =====
-- What becomes of the messages of a batch in pkg/stream/consumer_batch.go.
use mathlib.Core.Path.{subst}
use mathlib.Core.List.{append-nil}
use gosoline.Prelude.{
  ℕ, zero, suc, ◌+◌, ◌-◌, ◌≡◌, refl, sym, ap, inl, inr, Bool, true, false, not, some, List, [], ◌∷◌,
  ◌++◌, Bool-cases, arith, length, if◌then◌else◌, All, lookup, assign, IsMap, assign-IsMap,
  string_comparable,
}
use Prim.Native.String.{String}
use gosoline.Stream.ConsumerBase.{Effect, Settings, State, retry}
use gosoline.Stream.ConsumerBase.Retries.{IsRetried, Retries, Retries-trans, retry-Retries}
use gosoline.Stream.BatchConsumer.Groups.{fit_acks_lem, pairs_of, group_of, group_acks_lem}
use gosoline.Stream.BatchConsumer.{
  ConsumerData, consumed, crashed, BatchCallback, Decoded, Group, append_group, group_acks,
  ack_effects, acknowledge_batch, fit_acks, decode_messages, retry_refused, after_consume, is_nil,
  consume_batch,
}

nothing_left : (acks : List Bool) → zero - length acks ≡ zero
nothing_left acks = omega arith

one_more : (k : ℕ) → 1 + k ≡ suc k
one_more k = omega arith

-- The refusals among the acks.
abbrev pub refusals : List Bool → ℕ
refusals [] = 0
refusals (true ∷ acks) = refusals acks
refusals (false ∷ acks) = suc (refusals acks)

module _ {W M : Type 0} (callback : BatchCallback W M) (settings : Settings)
    (foreign : settings.native_retry ≡ false) (enabled : settings.retry_enabled ≡ true) where
  retry_refused-Retries :
      (batch : List ConsumerData) (acks : List Bool) (s : State W)
      → length acks ≡ length batch
      → Retries (refusals acks) s (retry_refused callback settings batch acks s)
  unfolding retry_refused
  retry_refused-Retries [] [] s h = ([], sym (append-nil s.effects), tt, refl)
  retry_refused-Retries [] (ack ∷ acks) s h = absurd (omega (arith, h))
  retry_refused-Retries (cdata ∷ batch) [] s h = absurd (omega (arith, h))
  retry_refused-Retries (cdata ∷ batch) (true ∷ acks) s h =
      retry_refused-Retries batch acks s (omega (arith, h))
  retry_refused-Retries (cdata ∷ batch) (false ∷ acks) s h =
      let t = retry callback.new_v4 settings cdata.msg s in
      let k = refusals acks in
      subst
        (λ n. Retries (suc k) s (
          retry_refused callback settings batch acks
            (if not n then retry callback.new_v4 settings cdata.msg s else s)))
        (sym foreign)
        (subst (λ n. Retries n s (retry_refused callback settings batch acks t)) (one_more k)
          (Retries-trans 1 k s t (retry_refused callback settings batch acks t)
            (retry-Retries callback.new_v4 settings cdata.msg s enabled)
            (retry_refused-Retries batch acks t (omega (arith, h)))))

  group_acks-IsMap :
      (batch : List ConsumerData) (acks : List Bool) (groups : List (String × Group))
      → IsMap groups
      → IsMap (group_acks batch acks groups)
  unfolding group_acks
  group_acks-IsMap [] acks groups h = h
  group_acks-IsMap (cdata ∷ batch) [] groups h = h
  group_acks-IsMap (cdata ∷ batch) (ack ∷ acks) groups h = elim (Bool-cases cdata.acknowledgeable) [
    | inl can ↦ rw can (
        let next = append_group (lookup cdata.src groups) cdata.msg ack in
        group_acks-IsMap batch acks (assign cdata.src next groups)
          (assign-IsMap cdata.src next groups h))
    | inr not_can ↦ rw not_can (group_acks-IsMap batch acks groups h)
  ]

  after_consume_lem :
      (kept : List ConsumerData) (acks : List Bool) (w : W) (s : State W)
      → (puts : List Effect) × (groups : List (String × Group)) × ((after_consume callback settings
            kept
            (consumed acks, w)
            s).effects
          ≡ (s.effects ++ puts) ++ ack_effects groups)
        × All IsRetried puts
        × (length puts ≡ refusals (fit_acks (length kept) acks))
        × IsMap groups
        × ((src : String)
            → lookup src groups ≡ group_of (pairs_of src kept (fit_acks (length kept) acks)))
  unfolding after_consume acknowledge_batch
  after_consume_lem kept acks w s =
      let fitted = fit_acks (length kept) acks in
      let (puts, p, a, n) =
        retry_refused-Retries kept fitted (record s { world = w })
          (fit_acks_lem (length kept) acks).1 in
      (
        puts,
        group_acks kept fitted [],
        ap (λ e. e ++ ack_effects (group_acks kept fitted [])) p,
        a,
        n,
        group_acks-IsMap kept fitted [] tt,
        λ src. group_acks_lem src kept fitted [],
      )

  -- On an input that does not retry on its own, with retry enabled and unless the consumer is shutting
  -- down: if the batch is not empty, GetModel does not crash, and the callback, which is given the
  -- messages that can be read, in order, returns with any number of acks, then of these messages as many
  -- are put into retry as are not acknowledged, a missing ack counting as none. After that, each source of
  -- such messages whose input can be acknowledged is told exactly once of them, in order, with their
  -- acks.
  pub consume_batch_acks :
      (batch : List ConsumerData) (s : State W) (d : Decoded W M) (acks : List Bool) (w : W)
      → callback.is_done s.world ≡ false
      → is_nil callback settings batch ≡ false
      → decode_messages callback settings batch s.world ≡ some d
      → callback.consume d.models d.attributes d.world ≡ (consumed acks, w)
      → (puts : List Effect) × (groups : List (String × Group)) × ((consume_batch callback settings
            batch s).effects
          ≡ (s.effects ++ puts) ++ ack_effects groups)
        × All IsRetried puts
        × (length puts ≡ refusals (fit_acks (length d.kept) acks))
        × IsMap groups
        × ((src : String)
            → lookup src groups ≡ group_of (pairs_of src d.kept (fit_acks (length d.kept) acks)))
  unfolding consume_batch
  consume_batch_acks batch s d acks w on some_left decodes consumes =
      rw (on, some_left, decodes, consumes) (after_consume_lem d.kept acks w s)

  -- If GetModel or Consume crashes, nothing is put into retry and nothing is acknowledged.
  consume_batch_crash :
      (batch : List ConsumerData) (s : State W) (d : Decoded W M) (w : W)
      → callback.is_done s.world ≡ false
      → decode_messages callback settings batch s.world ≡ some d
      → callback.consume d.models d.attributes d.world ≡ (crashed, w)
      → (consume_batch callback settings batch s).effects ≡ s.effects
  unfolding consume_batch after_consume
  consume_batch_crash batch s d w on decodes consumes =
      elim (Bool-cases (is_nil callback settings batch)) [
        | inl nothing ↦ rw (on, nothing) refl
        | inr some_left ↦ rw (on, some_left, decodes, consumes) refl
      ]
