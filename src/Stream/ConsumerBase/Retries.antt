-- ===== src/Stream/ConsumerBase/Retries.antt =====
-- What a call of retry of pkg/stream/consumer_base.go lets leave the consumer.
use mathlib.Core.List.{append-nil, append_assoc}
use Prim.Native.String.{String}
use gosoline.Prelude.{
  ℕ, ◌+◌, ◌≡◌, refl, sym, ap, ◌∙◌, inl, inr, Bool, true, false, not, ◌&&◌, List, [], ◌∷◌, ◌++◌,
  Bool-cases, arith, length, if◌then◌else◌, All, All-append, length-append,
}
use gosoline.Stream.Message.{Message}
use gosoline.Stream.ConsumerBase.{
  Effect, acked, acked_batch, retried, Settings, State, build_retry_message, retry,
}

abbrev pub IsRetried : Effect → Type 0
IsRetried (acked msg ack) = ⊥
IsRetried (acked_batch src msgs acks) = ⊥
IsRetried (retried msg) = Unit

abbrev pub put_if : Bool → Message → List Effect
put_if true msg = retried msg ∷ []
put_if false msg = []

module _ {W : Type 0} (new_v4 : W → String × W) (settings : Settings) where
  pub retry_lem :
      (msg : Message) (s : State W)
      → (retry new_v4 settings msg s).effects
        ≡ s.effects ++ put_if settings.retry_enabled (build_retry_message new_v4 msg s.world).0
  unfolding retry
  retry_lem msg s = elim (Bool-cases settings.retry_enabled) [
    | inl on ↦ rw on refl
    | inr off ↦ rw off (sym (append-nil s.effects))
  ]

module _ {W : Type 0} where
  -- From one state to another, so many messages are put into retry, and nothing else leaves.
  abbrev pub Retries : ℕ → State W → State W → Type 0
  Retries n s t =
      (puts : List Effect) × (t.effects ≡ s.effects ++ puts)
      × All IsRetried puts
      × (length puts ≡ n)

  pub Retries-trans :
      (n m : ℕ) (s t u : State W) → Retries n s t → Retries m t u → Retries (n + m) s u
  Retries-trans n m s t u (first, p, a, k) (second, q, b, l) = (
    first ++ second,
    q ∙ ap (λ e. e ++ second) p ∙ append_assoc s.effects first second,
    All-append IsRetried first second a b,
    omega (arith, length-append {0} first second, k, l),
  )

  pub put-Retries :
      (b native e : Bool) (m : Message) (s t : State W)
      → native ≡ false
      → e ≡ true
      → t.effects ≡ s.effects ++ put_if (b && not native && e) m
      → Retries (if b then 1 else 0) s t
  put-Retries true true e m s t p q h = cc
  put-Retries true false true m s t p q h = (retried m ∷ [], h, (tt, tt), refl)
  put-Retries true false false m s t p q h = cc
  put-Retries false native e m s t p q h = ([], h, tt, refl)

module _ {W : Type 0} (new_v4 : W → String × W) (settings : Settings) where
  pub retry-Retries :
      (msg : Message) (s : State W)
      → settings.retry_enabled ≡ true
      → Retries 1 s (retry new_v4 settings msg s)
  retry-Retries msg s enabled =
      put-Retries true false settings.retry_enabled (build_retry_message new_v4 msg s.world).0 s
        (retry new_v4 settings msg s) refl enabled (retry_lem new_v4 settings msg s)
