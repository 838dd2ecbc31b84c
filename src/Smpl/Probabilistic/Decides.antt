-- ===== src/Smpl/Probabilistic/Decides.antt =====
-- How many requests of an interval are sampled at least, by pkg/smpl/strategy_probabilistic.go.
use gosoline.Prelude.{
  ℕ, suc, ◌+◌, ◌/◌, ◌≤◌, ◌<◌, ◌≡◌, ◌≢◌, refl, ap, sym, eqb_iff, inl, inr, Bool, true, false, List,
  [], ◌∷◌, arith, length, All, ltb, eqb, Bool-cases,
}
use gosoline.Smpl.Probabilistic.{Settings, Probabilistic, enter, draw, decide, decide_all}

-- The decisions that are to sample.
abbrev sampled_count : List Bool → ℕ
sampled_count [] = 0
sampled_count (true ∷ bs) = suc (sampled_count bs)
sampled_count (false ∷ bs) = sampled_count bs

module _ {G : Type 0} (settings : Settings G) where
  reset :
      (k : ℕ) (s : Probabilistic G)
      → s.current_interval ≢ k
      → enter settings k s ≡ record s { current_interval = k; fixed_samples_this_interval = 0 }
  reset k s n = elim (Bool-cases (eqb k s.current_interval)) [
    | inl t ↦ absurd (n (sym ((eqb_iff k s.current_interval).0 t)))
    | inr f ↦ rw f refl
  ]

  entered : (k : ℕ) (s : Probabilistic G) → s.current_interval ≡ k → enter settings k s ≡ s
  entered k s e = elim (Bool-cases (eqb k s.current_interval)) [
    | inl t ↦ rw t refl
    | inr f ↦ absurd (grind arith)
  ]

  fixed :
      (s : Probabilistic G)
      → s.fixed_samples_this_interval < settings.fixed_sample_count
      → draw settings s
        ≡ (true, record s { fixed_samples_this_interval = s.fixed_samples_this_interval + 1 })
  fixed s p = elim (Bool-cases (ltb s.fixed_samples_this_interval settings.fixed_sample_count)) [
    | inl t ↦ rw t refl
    | inr f ↦ absurd (grind arith)
  ]

  -- Within an interval: so many of the fixed samples are left, and so many decisions are to sample.
  within :
      (k : ℕ) (nows : List ℕ) (s : Probabilistic G)
      → All (λ now. now / settings.interval ≡ k) nows
      → s.current_interval ≡ k
      → s.fixed_samples_this_interval + length nows ≤ settings.fixed_sample_count
      → sampled_count (decide_all settings nows s).0 ≡ length nows
  unfolding decide_all decide
  within k [] s h e p = refl
  within k (now ∷ nows) s h e p =
      rw (h.0, entered k s e, fixed s (omega arith))
        (ap suc (
          within k nows
            (record s { fixed_samples_this_interval = s.fixed_samples_this_interval + 1 }) h.1 e
            (omega arith)))

  -- The first requests of an interval, up to the fixed number of samples, are all sampled: whatever the
  -- random numbers are and whatever the interval before has left behind.
  decide_all_samples :
      (k : ℕ) (nows : List ℕ) (s : Probabilistic G)
      → All (λ now. now / settings.interval ≡ k) nows
      → s.current_interval ≢ k
      → length nows ≤ settings.fixed_sample_count
      → sampled_count (decide_all settings nows s).0 ≡ length nows
  unfolding decide_all decide
  decide_all_samples k [] s h n p = refl
  decide_all_samples k (now ∷ nows) s h n p =
      rw
        (
          h.0,
          reset k s n,
          fixed (record s { current_interval = k; fixed_samples_this_interval = 0 }) (omega arith),
        )
        (ap suc (
          within k nows (record s { current_interval = k; fixed_samples_this_interval = 1 }) h.1
            refl (omega arith)))
