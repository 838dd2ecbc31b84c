-- ===== src/Stream/Consumer/Aggregates.antt =====
-- What becomes of the messages of an aggregate in pkg/stream/consumer.go.
use mathlib.Core.List.{append-nil}
use mathlib.Core.Path.{subst}
use gosoline.Prelude.{
  ℕ, suc, ◌+◌, ◌≡◌, refl, sym, ap, ◌∙◌, Bool, true, false, not, ◌&&◌, some, List, [], ◌∷◌, ◌++◌,
  arith, length, if◌then◌else◌, All,
}
use gosoline.Stream.Message.{Message}
use gosoline.Stream.ConsumerBase.{
  Effect, acked, at_least_once, Settings, State, build_retry_message,
}
use gosoline.Stream.Consumer.{
  Callback, acknowledge_if, process, process_batch, process_decoded, process_in_mode,
  is_at_least_once, process_aggregate_message,
}
use gosoline.Stream.ConsumerBase.Retries.{IsRetried, Retries, Retries-trans, put-Retries, put_if}
use gosoline.Stream.Consumer.Settles.{is_refused, fate, ack_if, process_lem, acknowledge_lem}

put_if-nil : (a e : Bool) (msg : Message) → put_if (a && false && e) msg ≡ []
put_if-nil true e msg = refl
put_if-nil false e msg = refl

count_if : (b : Bool) (n : ℕ) → (if b then 1 else 0) + n ≡ (if b then suc n else n)
count_if true n = omega arith
count_if false n = omega arith

module _ {W M : Type 0} (callback : Callback W M) (settings : Settings) where
  -- The messages that are refused, in a run over the batch.
  abbrev pub refused_count : Bool → List Message → State W → ℕ
  refused_count native [] s = 0
  refused_count native (m ∷ batch) s =
      let later = refused_count native batch (process callback settings m native s).1 in
      if is_refused (fate callback m s.world) then suc later else later

  process-native :
      (msg : Message) (s : State W)
      → settings.native_retry ≡ true
      → (process callback settings msg true s).1.effects ≡ s.effects
  process-native msg s h =
      let (p, w, q) = process_lem callback settings msg s in
      let f = is_refused (fate callback msg s.world) in
      let m = (build_retry_message callback.new_v4 msg w).0 in
      subst
        (λ n.
          (process callback settings msg n s).1.effects
          ≡ s.effects ++ put_if (f && not n && settings.retry_enabled) m)
        h q
      ∙ rw (put_if-nil f settings.retry_enabled m) (append-nil s.effects)

  process_batch-native :
      (batch : List Message) (s : State W)
      → settings.native_retry ≡ true
      → (process_batch callback settings true batch s).effects ≡ s.effects
  unfolding process_batch
  process_batch-native [] s h = refl
  process_batch-native (m ∷ batch) s h =
      process_batch-native batch (process callback settings m true s).1 h ∙ process-native m s h

  least_native :
      (msg : Message) (batch : List Message) (s : State W)
      → settings.native_retry ≡ true
      → (process_in_mode callback settings true msg batch s).effects
        ≡ s.effects ++ ack_if settings.acknowledgeable msg true
  least_native msg batch s native =
      let t = process_batch callback settings settings.native_retry batch s in
      acknowledge_lem callback settings msg true t
      ∙ ap (λ e. e ++ ack_if settings.acknowledgeable msg true)
          (subst (λ n. (process_batch callback settings n batch s).effects ≡ s.effects) (sym native)
            (process_batch-native batch s native))

  in_mode :
      (msg : Message) (batch : List Message) (s : State W) (least : Bool) {effects : List Effect}
      → callback.decode_aggregate msg ≡ some batch
      → least ≡ is_at_least_once settings.aggregate_message_mode
      → (process_in_mode callback settings least msg batch s).effects ≡ effects
      → (process_aggregate_message callback settings msg s).effects ≡ effects
  unfolding process_aggregate_message
  in_mode msg batch s least {effects} d m h =
      subst (λ o. (process_decoded callback settings msg o s).effects ≡ effects) (sym d)
        (subst (λ l. (process_in_mode callback settings l msg batch s).effects ≡ effects) m h)

  -- At least once, on an input that retries on its own: whatever the callback does with the messages
  -- of an aggregate that can be read, refusing or crashing on all of them included, none is put into
  -- retry and the aggregate is acknowledged as done.
  pub aggregate_drops_refused :
      (msg : Message) (batch : List Message) (s : State W)
      → settings.aggregate_message_mode ≡ at_least_once
      → settings.native_retry ≡ true
      → settings.acknowledgeable ≡ true
      → callback.decode_aggregate msg ≡ some batch
      → (process_aggregate_message callback settings msg s).effects
        ≡ s.effects ++ acked msg true ∷ []
  unfolding process_aggregate_message
  aggregate_drops_refused msg batch s mode native can d =
      in_mode msg batch s true d (sym (ap is_at_least_once mode))
        (least_native msg batch s native ∙ ap (λ can. s.effects ++ ack_if can msg true) can)

  -- A refused message is put into retry if the input does not retry on its own.
  module _ (foreign : settings.native_retry ≡ false) (enabled : settings.retry_enabled ≡ true) where
    process-Retries :
        (msg : Message) (s : State W)
        → Retries
            (if is_refused (fate callback msg s.world) then 1 else 0)
            s
            (process callback settings msg false s).1
    process-Retries msg s =
        let (p, w, q) = process_lem callback settings msg s in
        subst
          (λ native.
            Retries (if is_refused (fate callback msg s.world) then 1 else 0) s
              (process callback settings msg native s).1)
          foreign
          (put-Retries (is_refused (fate callback msg s.world)) settings.native_retry
            settings.retry_enabled (build_retry_message callback.new_v4 msg w).0 s
            (process callback settings msg settings.native_retry s).1 foreign enabled q)

    process_batch-Retries :
        (batch : List Message) (s : State W)
        → Retries (refused_count false batch s) s (process_batch callback settings false batch s)
    unfolding process_batch
    process_batch-Retries [] s = ([], sym (append-nil s.effects), tt, refl)
    process_batch-Retries (m ∷ batch) s =
        let t = (process callback settings m false s).1 in
        subst (λ n. Retries n s (process_batch callback settings false batch t))
          (count_if (is_refused (fate callback m s.world)) (refused_count false batch t))
          (Retries-trans (if is_refused (fate callback m s.world) then 1 else 0)
            (refused_count false batch t) s t (process_batch callback settings false batch t)
            (process-Retries m s) (process_batch-Retries batch t))

    acknowledge_if_lem :
        (b : Bool) (msg : Message) (s : State W)
        → (acknowledge_if callback settings b msg s).effects
          ≡ s.effects ++ ack_if (b && settings.acknowledgeable) msg true
    acknowledge_if_lem true msg s = acknowledge_lem callback settings msg true s
    acknowledge_if_lem false msg s = sym (append-nil s.effects)

    -- With retry enabled, on an input that does not retry on its own: an aggregate that can be read is
    -- acknowledged once if the input can be acknowledged, after its messages if the mode is at least once
    -- and before them if it is at most once. Of its messages, as many are put into retry as are refused,
    -- and nothing else leaves.
    pub aggregate_retries_refused :
        (msg : Message) (batch : List Message) (s : State W)
        → callback.decode_aggregate msg ≡ some batch
        → let least = is_at_least_once settings.aggregate_message_mode in
          let can = settings.acknowledgeable in
          (puts : List Effect) × ((process_aggregate_message callback settings msg s).effects
            ≡ ((s.effects ++ ack_if (not least && can) msg true) ++ puts)
              ++ ack_if (least && can) msg true)
          × All IsRetried puts
          × (length puts
              ≡ refused_count false batch (acknowledge_if callback settings (not least) msg s))
    aggregate_retries_refused msg batch s d =
        let least = is_at_least_once settings.aggregate_message_mode in
        let start = acknowledge_if callback settings (not least) msg s in
        let (puts, p, a, n) = process_batch-Retries batch start in
        (
          puts,
          in_mode msg batch s least d refl (
              subst
                (λ native.
                  (acknowledge_if callback settings least msg
                    (process_batch callback settings native batch start)).effects
                  ≡ ((s.effects ++ ack_if (not least && settings.acknowledgeable) msg true) ++ puts)
                    ++ ack_if (least && settings.acknowledgeable) msg true)
                (never least)
                (acknowledge_if_lem least msg (process_batch callback settings false batch start)
                  ∙ ap (λ e. e ++ ack_if (least && settings.acknowledgeable) msg true)
                      (p ∙ ap (λ e. e ++ puts) (acknowledge_if_lem (not least) msg s)))),
          a,
          n,
        )
      where
        never : (b : Bool) → false ≡ (b && settings.native_retry)
        never true = sym foreign
        never false = refl
