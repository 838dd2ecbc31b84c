-- ===== src/Clock/Examples.antt =====
-- Runs of the fake clock of pkg/clock.
use gosoline.Prelude.{ℕ, ◌≡◌, none, List, [], ◌∷◌, arith, leb, is_some}
use gosoline.Clock.Fake.{pos, negsuc, Clock, advance, after, new_timer, advance_all}
use gosoline.Clock.Fake.Timers.{
  expected, with_timer, map_clock, total, timer_fires, after_negative_hangs,
}

abbrev noon : Clock
noon = record { now = 12; sleepers = []; timers = []; tickers = [] }

abbrev run : List ℕ
run = 3 ∷ 4 ∷ 5 ∷ []

timer_fires_example :
    (advance_all (new_timer noon (pos 7)) run
      ≡ map_clock (λ c. with_timer c (expected 12 7 run)) (advance_all noon run))
    × (is_some (expected 12 7 run).channel ≡ leb 7 (total run))
timer_fires_example = timer_fires noon 7 run (omega arith)

after_negative_hangs_example : advance (after noon (negsuc 0)) 5 ≡ none
after_negative_hangs_example = after_negative_hangs noon 0 5
