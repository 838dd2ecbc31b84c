-- ===== src/Smpl/Examples.antt =====
-- Runs of the decider and of the probabilistic strategy of pkg/smpl.
use gosoline.Prelude.{ℕ, ◌+◌, ◌≡◌, refl, true, false, none, some, [], ◌∷◌}
use gosoline.Smpl.Decider.{Strategy, Decider, unchanged, decide}
use gosoline.Smpl.Decider.Sticks.{decide_stays}

-- A strategy that counts its calls and does not apply, and one that applies.
abbrev passes : Strategy ℕ
passes n = (some (false, true), n + 1)

abbrev rejects : Strategy ℕ
rejects n = (some (true, false), n + 1)

abbrev decider : Decider ℕ
decider = record { enabled = true; strategies = rejects ∷ [] }

decide_stays_example :
    decide decider (decide decider none (passes ∷ []) 0).sampling [] 5
    ≡ unchanged
        (decide decider none (passes ∷ []) 0).sampling
        (decide decider none (passes ∷ []) 0).sampled
        false
        5
unfolding decide
decide_stays_example = decide_stays decider none (passes ∷ []) [] 0 5 refl
