-- ===== src/Clock/Fake.antt =====
-- `fakeClock` of pkg/clock/fake_clock.go, with its timers (fake_timer.go) and tickers (fake_ticker.go).
-- A channel is a buffer of one value, as the code makes it; nobody reads it between the calls. The
-- channels that wait for a number of timers are not modelled.
pub mod Timers
use gosoline.Prelude.{
  ℕ, zero, suc, ◌+◌, ◌-◌, Bool, true, false, not, Option, none, some, List, [], ◌∷◌, ◌++◌, map, ltb,
  eqb, if◌then◌else◌,
}

-- time.Duration
pub data ℤ : Type 0 where
  pos negsuc : ℕ → ℤ

-- r > d, for a duration d that is not negative
abbrev exceeds : ℤ → ℕ → Bool
exceeds (pos r) d = ltb d r
exceeds (negsuc r) d = false

-- r - d, where r > d
abbrev less : ℤ → ℕ → ℤ
less (pos r) d = pos (r - d)
less (negsuc r) d = negsuc (r + d)

abbrev is_nought : ℤ → Bool
is_nought (pos r) = eqb r 0
is_nought (negsuc r) = false

-- d <= 0
abbrev is_due : ℤ → Bool
is_due (pos d) = eqb d 0
is_due (negsuc d) = true

pub record Sleeper : Type 0 where
  pub channel : Option ℕ
  pub remaining : ℤ

pub record Timer : Type 0 where
  pub channel : Option ℕ
  pub remaining : ℤ

pub record Ticker : Type 0 where
  pub channel : Option ℕ
  pub remaining : ℕ
  pub duration : ℕ

pub record Clock : Type 0 where
  pub now : ℕ
  pub sleepers : List Sleeper
  pub timers : List Timer
  pub tickers : List Ticker

-- NewFakeClockAt
unfoldable new_fake_clock_at : ℕ → Clock
new_fake_clock_at t = record { now = t; sleepers = []; timers = []; tickers = [] }

-- f.c <- t of a sleeper: none if the buffer is full, where the code would wait for ever
abbrev send : ℕ → Sleeper → Option Sleeper
send t s = elim s.channel [ none ↦ some (record s { channel = some t }) | some old ↦ none ]

-- advance of a sleeper, with whether it is kept; the clock drops one that is not kept
unfoldable pub advance_sleeper : ℕ → ℕ → Sleeper → Option (Bool × Sleeper)
advance_sleeper t d s =
    if exceeds s.remaining d
    then some (true, record s { remaining = less s.remaining d })
    else if is_nought s.remaining
    then some (false, s)
    else elim (send t (record s { remaining = pos 0 })) [
      | none ↦ none
      | some fired ↦ some (false, fired)
    ]

abbrev keep : Bool × Sleeper → List Sleeper → List Sleeper
keep (true, s) rest = s ∷ rest
keep (false, s) rest = rest

abbrev pub keep_all : Option (Bool × Sleeper) → Option (List Sleeper) → Option (List Sleeper)
keep_all none rest = none
keep_all (some r) none = none
keep_all (some r) (some rest) = some (keep r rest)

-- the loop of Advance over the sleepers
unfoldable pub advance_sleepers : ℕ → ℕ → List Sleeper → Option (List Sleeper)
unfolding advance_sleeper
advance_sleepers t d [] = some []
advance_sleepers t d (s ∷ rest) = keep_all (advance_sleeper t d s) (advance_sleepers t d rest)

-- sendTick: the buffer is emptied first
abbrev send_tick : ℕ → Timer → Timer
send_tick t timer = record timer { channel = some t }

unfoldable pub advance_timer : ℕ → ℕ → Timer → Timer
advance_timer t d timer =
    if exceeds timer.remaining d
    then record timer { remaining = less timer.remaining d }
    else if is_nought timer.remaining
    then timer
    else send_tick t (record timer { remaining = pos 0 })

unfoldable pub advance_ticker : ℕ → ℕ → Ticker → Ticker
advance_ticker t d ticker =
    if eqb ticker.duration 0
    then ticker
    else if ltb d ticker.remaining
    then record ticker { remaining = ticker.remaining - d }
    else record ticker { channel = some t; remaining = ticker.duration }

abbrev pub with_sleepers : Clock → ℕ → Option (List Sleeper) → Option Clock
with_sleepers c d none = none
with_sleepers c d (some sleepers) = some (record {
  now = c.now + d;
  sleepers = sleepers;
  timers = map (advance_timer (c.now + d) d) c.timers;
  tickers = map (advance_ticker (c.now + d) d) c.tickers;
})

-- Advance by a duration that is not negative: none if it hangs
unfoldable pub advance : Clock → ℕ → Option Clock
unfolding advance_sleepers advance_timer advance_ticker
advance c d = with_sleepers c d (advance_sleepers (c.now + d) d c.sleepers)

-- After
unfoldable pub after : Clock → ℤ → Clock
after c d =
    let channel = if is_due d then some c.now else none in
    record c { sleepers = c.sleepers ++ record { channel = channel; remaining = d } ∷ [] }

-- NewTimer
unfoldable pub new_timer : Clock → ℤ → Clock
new_timer c d =
    let channel = if is_due d then some c.now else none in
    record c { timers = c.timers ++ record { channel = channel; remaining = d } ∷ [] }

-- NewTicker: none where it panics
unfoldable new_ticker : Clock → ℕ → Option Clock
new_ticker c zero = none
new_ticker c (suc d) = some (record c {
  tickers = c.tickers ++ record { channel = none; remaining = suc d; duration = suc d } ∷ [];
})

-- Stop of a timer, with whether it was running
unfoldable stop_timer : Timer → Bool × Timer
stop_timer timer = (not (is_nought timer.remaining), record timer { remaining = pos 0 })

-- Reset of a timer
unfoldable reset_timer : Clock → Timer → ℤ → Timer
reset_timer c timer d =
    let reset = record timer { remaining = d } in if is_due d then send_tick c.now reset else reset

-- Stop and Reset of a ticker
unfoldable stop_ticker : Ticker → Ticker
stop_ticker ticker = record ticker { remaining = 0; duration = 0 }

unfoldable reset_ticker : Ticker → ℕ → Option Ticker
reset_ticker ticker zero = none
reset_ticker ticker (suc d) = some (record ticker { remaining = suc d; duration = suc d })

abbrev and_then : Option Clock → (Clock → Option Clock) → Option Clock
and_then none f = none
and_then (some c) f = f c

-- A run of calls of Advance.
unfoldable pub advance_all : Clock → List ℕ → Option Clock
unfolding advance
advance_all c [] = some c
advance_all c (d ∷ ds) = and_then (advance c d) (λ c'. advance_all c' ds)
