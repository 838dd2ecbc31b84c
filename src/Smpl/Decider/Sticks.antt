-- ===== src/Smpl/Decider/Sticks.antt =====
-- That a decision of pkg/smpl/decider.go stays, and which strategies it asks.
use mathlib.Core.Bool.{true≢false}
use gosoline.Prelude.{◌≡◌, refl, inl, inr, Bool, false, Bool-cases, Option, none, some, List, ◌++◌}
use gosoline.Smpl.Decider.{
  Strategy, Decider, first_applied, unchanged, concluded, decide_by, decide,
}

module _ {W : Type 0} where
  concluded_stays :
      (r : Option Bool × W)
      → (concluded r).failed ≡ false
      → (concluded r).sampling ≡ some (concluded r).sampled
  concluded_stays (none, w) h = absurd (true≢false h)
  concluded_stays (some sampled, w) h = refl

  decide_by_stays :
      (asked others : List (Strategy W)) (before : Option Bool) (w v : W)
      → let first = decide_by asked before w in
        first.failed ≡ false
        → decide_by others first.sampling v ≡ unchanged first.sampling first.sampled false v
  unfolding decide_by
  decide_by_stays asked others (some sampled) w v h = refl
  decide_by_stays asked others none w v h = rw (concluded_stays (first_applied asked w) h) refl

  -- Once Decide has returned no error, a later call with the context that it returned gives the same
  -- decision, whatever strategies it is given: it asks none of them, writes no data point and changes
  -- neither the context nor the state of the strategies.
  pub decide_stays :
      (d : Decider W) (before : Option Bool) (overwrite others : List (Strategy W)) (w v : W)
      → (decide d before overwrite w).failed ≡ false
      → decide d (decide d before overwrite w).sampling others v
        ≡ unchanged
            (decide d before overwrite w).sampling
            (decide d before overwrite w).sampled
            false
            v
  unfolding decide
  decide_stays d before overwrite others w v = elim (Bool-cases d.enabled) [
    | inl on ↦
        rw on (decide_by_stays (overwrite ++ d.strategies) (others ++ d.strategies) before w v)
    | inr off ↦ rw off (λ h. refl)
  ]
