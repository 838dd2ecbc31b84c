-- ===== src/Stream/Consumer/Settles.antt =====
-- What becomes of one message in pkg/stream/consumer.go.
use mathlib.Core.List.{append-nil}
use gosoline.Prelude.{
  ◌≡◌, refl, sym, ap, ◌∙◌, inl, inr, Bool, true, false, not, ◌&&◌, Option, none, some, List, [],
  ◌∷◌, ◌++◌, Bool-cases, if◌then◌else◌,
}
use gosoline.Stream.Message.{Message, Attributes}
use gosoline.Stream.ConsumerBase.{
  Effect, acked, ModelAnswer, Settings, State, build_retry_message, retry,
}
use gosoline.Stream.ConsumerBase.Retries.{put_if, retry_lem}
use gosoline.Stream.Consumer.{
  Consumed, Callback, acknowledge, recover, after_consume, after_decode, after_model, process,
  process_single_message,
}

-- The callback is done with the message, refused it (or crashed on it, or was not asked as the consumer
-- shuts down), or the message has no model or no body that can be read.
pub data Fate : Type 0 where
  settled refused unreadable : Fate

abbrev pub is_settled : Fate → Bool
is_settled Fate.settled = true
is_settled Fate.refused = false
is_settled Fate.unreadable = false

abbrev pub is_refused : Fate → Bool
is_refused Fate.settled = false
is_refused Fate.refused = true
is_refused Fate.unreadable = false

abbrev fate_of_consumed : Consumed → Fate
fate_of_consumed (Consumed.consumed true) = Fate.settled
fate_of_consumed (Consumed.consumed false) = Fate.refused
fate_of_consumed Consumed.crashed = Fate.refused

abbrev pub ack_if : Bool → Message → Bool → List Effect
ack_if true msg ack = acked msg ack ∷ []
ack_if false msg ack = []

module _ {W M : Type 0} (callback : Callback W M) where
  abbrev fate_of_decoded : Option (M × Attributes) → W → Fate
  fate_of_decoded none w = Fate.unreadable
  fate_of_decoded (some (model, attributes)) w =
      fate_of_consumed (callback.consume model attributes w).0

  abbrev fate_of_model : Message → ModelAnswer M × W → Fate
  fate_of_model msg (ModelAnswer.found model, w) = fate_of_decoded (callback.decode msg model) w
  fate_of_model msg (ModelAnswer.absent, w) = Fate.unreadable
  fate_of_model msg (ModelAnswer.unknown true, w) = Fate.settled
  fate_of_model msg (ModelAnswer.unknown false, w) = Fate.unreadable
  fate_of_model msg (ModelAnswer.panicked, w) = Fate.refused

  abbrev pub fate : Message → W → Fate
  fate msg w =
      if callback.is_done w
      then Fate.refused
      else fate_of_model msg (callback.get_model msg.attributes w)

module _ {W M : Type 0} (callback : Callback W M) (settings : Settings) where
  -- The message is acknowledged as its fate says, and put into retry, in the form that it has then,
  -- if it was refused and nobody else retries it.
  abbrev FollowsFate : Message → Bool → Fate → State W → Bool × State W → Type 0
  FollowsFate msg native f s r =
      (r.0 ≡ is_settled f)
      × (w : W) × (r.1.effects
          ≡ s.effects
            ++ put_if (is_refused f && not native && settings.retry_enabled)
                (build_retry_message callback.new_v4 msg w).0)

  -- A refused message, whether by a crash or not.
  refused_lem :
      (msg : Message) (s : State W) (native : Bool)
      → FollowsFate msg native Fate.refused s
          (false, if native then s else retry callback.new_v4 settings msg s)
  refused_lem msg s true = (refl, s.world, sym (append-nil s.effects))
  refused_lem msg s false = (refl, s.world, retry_lem callback.new_v4 settings msg s)

  not_acked_lem :
      (msg : Message) (s : State W) (native : Bool)
      → FollowsFate msg native Fate.refused s
          (false, if not native then retry callback.new_v4 settings msg s else s)
  not_acked_lem msg s true = refused_lem msg s true
  not_acked_lem msg s false = refused_lem msg s false

  unread_lem :
      (msg : Message) (s : State W) (native : Bool) (f : Fate) (ack : Bool) (w : W)
      → is_refused f ≡ false
      → ack ≡ is_settled f
      → FollowsFate msg native f s (ack, record s { world = w })
  unread_lem msg s native f ack w p q = (q, w, rw p (sym (append-nil s.effects)))

  after_consume_lem :
      (msg : Message) (c : Consumed) (w : W) (s : State W)
      → FollowsFate msg settings.native_retry
          (fate_of_consumed c)
          s
          (after_consume callback settings msg settings.native_retry (c, w) s)
  unfolding after_consume recover
  after_consume_lem msg (Consumed.consumed true) w s =
      unread_lem msg s settings.native_retry Fate.settled true w refl refl
  after_consume_lem msg (Consumed.consumed false) w s =
      not_acked_lem msg (record s { world = w }) settings.native_retry
  after_consume_lem msg Consumed.crashed w s =
      refused_lem msg (record s { world = w }) settings.native_retry

  after_decode_lem :
      (msg : Message) (d : Option (M × Attributes)) (s : State W)
      → FollowsFate msg settings.native_retry
          (fate_of_decoded callback d s.world)
          s
          (after_decode callback settings msg settings.native_retry d s)
  after_decode_lem msg none s =
      unread_lem msg s settings.native_retry Fate.unreadable false s.world refl refl
  after_decode_lem msg (some (model, attributes)) s =
      let (c, w) = callback.consume model attributes s.world in after_consume_lem msg c w s

  after_model_lem :
      (msg : Message) (a : ModelAnswer M) (w : W) (s : State W)
      → FollowsFate msg settings.native_retry
          (fate_of_model callback msg (a, w))
          s
          (after_model callback settings msg settings.native_retry (a, w) s)
  unfolding after_model recover
  after_model_lem msg (ModelAnswer.found model) w s =
      after_decode_lem msg (callback.decode msg model) (record s { world = w })
  after_model_lem msg ModelAnswer.absent w s =
      unread_lem msg s settings.native_retry Fate.unreadable false w refl refl
  after_model_lem msg (ModelAnswer.unknown true) w s =
      unread_lem msg s settings.native_retry Fate.settled true w refl refl
  after_model_lem msg (ModelAnswer.unknown false) w s =
      unread_lem msg s settings.native_retry Fate.unreadable false w refl refl
  after_model_lem msg ModelAnswer.panicked w s =
      refused_lem msg (record s { world = w }) settings.native_retry

  pub process_lem :
      (msg : Message) (s : State W)
      → FollowsFate msg settings.native_retry
          (fate callback msg s.world)
          s
          (process callback settings msg settings.native_retry s)
  unfolding process
  process_lem msg s = elim (Bool-cases (callback.is_done s.world)) [
    | inl done ↦ rw done (refused_lem msg s settings.native_retry)
    | inr on ↦
        let (a, w) = callback.get_model msg.attributes s.world in rw on (after_model_lem msg a w s)
  ]

  pub acknowledge_lem :
      (msg : Message) (ack : Bool) (s : State W)
      → (acknowledge callback settings msg ack s).effects
        ≡ s.effects ++ ack_if settings.acknowledgeable msg ack
  unfolding acknowledge
  acknowledge_lem msg ack s = elim (Bool-cases settings.acknowledgeable) [
    | inl on ↦ rw on refl
    | inr off ↦ rw off (sym (append-nil s.effects))
  ]

  -- A message is put into retry, at most once, exactly if it was refused, retry is enabled and the input
  -- does not retry on its own; then, last, it is acknowledged with whether the callback is done with it.
  pub process_single_message_settles :
      (msg : Message) (s : State W)
      → (w : W) × ((process_single_message callback settings msg s).effects
          ≡ (s.effects
              ++ put_if
                  (is_refused (fate callback msg s.world)
                    && not settings.native_retry
                    && settings.retry_enabled)
                  (build_retry_message callback.new_v4 msg w).0)
            ++ ack_if settings.acknowledgeable msg (is_settled (fate callback msg s.world)))
  unfolding process_single_message
  process_single_message_settles msg s =
      let r = process callback settings msg settings.native_retry s in
      let (p, w, q) = process_lem msg s in
      (
        w,
        acknowledge_lem msg r.0 r.1
            ∙ (rw p (
                ap
                  (λ t.
                    t
                    ++ ack_if settings.acknowledgeable msg (is_settled (fate callback msg s.world)))
                  q)),
      )
