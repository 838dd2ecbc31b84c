-- ===== src/Limit/Examples.antt =====
-- Runs of the limiters of pkg/limit.
use gosoline.Prelude.{
  ◌≤◌, ◌<◌, ◌≡◌, refl, Bool, true, false, Option, none, some, [], ◌∷◌, All, arith,
}
use gosoline.Clock.Fake.{pos}
use gosoline.Limit.FixedWindow.{FixedWindowConfig, Incremented, after_increment}
use gosoline.Limit.FixedWindow.Windows.{passes_at, passes_in_turn}
use gosoline.Limit.Ddb.{Window, Repository, RepositoryLaws}
use gosoline.Limit.Ddb.Resets.{counters, window_over_counts_nothing}

abbrev three_in_ten : FixedWindowConfig
three_in_ten = record { cap = 3; window = 10 }

abbrev seventh : Incremented
seventh = record { incr = 8; ttl = pos 6 }

-- The request that finds the counter at 7, at time 104 of a window that opened at 100, passes at 120.
passes_in_turn_example :
    (passes_at 104 (after_increment three_in_ten false (some seventh)) ≡ some 120)
    × (120 ≤ 120)
    × (120 < 130)
passes_in_turn_example = passes_in_turn 3 10 100 104 7 (omega arith) (omega arith) (omega arith)

-- A repository of one item in memory.
abbrev update : Bool → (Option Window → Window) → Option Window → Option Window × Option Window
update true set d = (some (set d), some (set d))
update false set d = (none, d)

abbrev memory : Repository (Option Window)
memory = record { item = λ d. d; update_item = λ condition set d. update (condition d) set d }

update_fits :
    (b : Bool) (set : Option Window → Window) (d : Option Window)
    → b ≡ true
    → ((update b set d).0 ≡ some (set d)) × ((update b set d).1 ≡ some (set d))
update_fits true set d h = (refl, refl)
update_fits false set d h = cc

update_fails :
    (b : Bool) (set : Option Window → Window) (d : Option Window)
    → b ≡ false
    → ((update b set d).0 ≡ none) × ((update b set d).1 ≡ d)
update_fails true set d h = cc
update_fails false set d h = (refl, refl)

memory_laws : RepositoryLaws memory
memory_laws = record {
  fits = λ condition set d h. update_fits (condition d) set d h;
  fails = λ condition set d h. update_fails (condition d) set d h;
}

abbrev busy : Window
busy = record { val = 3; ttl = 50 }

window_over_counts_nothing_example :
    All (λ c. c ≡ some 1) (counters memory memory_laws 10 (51 ∷ 52 ∷ 99 ∷ []) (some busy))
window_over_counts_nothing_example =
    window_over_counts_nothing memory memory_laws 10 (51 ∷ 52 ∷ 99 ∷ []) (some busy) busy refl
      (omega arith)
