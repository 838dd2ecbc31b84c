-- ===== src/Smpl/Probabilistic.antt =====
-- `probabilisticStrategy` of pkg/smpl/strategy_probabilistic.go.
pub mod Decides
use gosoline.Prelude.{ℕ, ◌+◌, ◌/◌, Bool, true, List, [], ◌∷◌, ◌++◌, ltb, eqb, if◌then◌else◌}

-- ProbabilisticSettings: the interval in nanoseconds, which is not zero, and the samples that it has at
-- least. `lucky` is
-- `randFloat64() < extraRate`, and the numbers that are still to come.
pub record Settings (G : Type 0) : Type 0 where
  pub interval : ℕ
  pub fixed_sample_count : ℕ
  pub lucky : G → Bool × G

pub record Probabilistic (G : Type 0) : Type 0 where
  pub rand : G
  pub current_interval : ℕ
  pub fixed_samples_this_interval : ℕ

module _ {G : Type 0} (settings : Settings G) where
  -- the counters are reset on the boundary of an interval
  abbrev pub enter : ℕ → Probabilistic G → Probabilistic G
  enter current s =
      if eqb current s.current_interval
      then s
      else record s { current_interval = current; fixed_samples_this_interval = 0 }

  abbrev pub draw : Probabilistic G → Bool × Probabilistic G
  draw s =
      if ltb s.fixed_samples_this_interval settings.fixed_sample_count
      then (true, record s { fixed_samples_this_interval = s.fixed_samples_this_interval + 1 })
      else (let (sampled, g) = settings.lucky s.rand in (sampled, record s { rand = g }))

  -- decide, at a time in nanoseconds: whether the request is sampled. It always applies, without error.
  unfoldable pub decide : ℕ → Probabilistic G → Bool × Probabilistic G
  decide now s = draw (enter (now / settings.interval) s)

  -- A run of decisions, at these times.
  unfoldable pub decide_all : List ℕ → Probabilistic G → List Bool × Probabilistic G
  unfolding decide
  decide_all [] s = ([], s)
  decide_all (now ∷ nows) s =
      let (sampled, t) = decide now s in let (more, u) = decide_all nows t in (sampled ∷ more, u)
