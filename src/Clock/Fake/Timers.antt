-- ===== src/Clock/Fake/Timers.antt =====
-- When the timers of the fake clock of pkg/clock fire.
use gosoline.Prelude.{
  ℕ, ◌+◌, ◌-◌, ◌≤◌, ◌≡◌, refl, sym, ap, inl, inr, Bool, true, false, Option, none, some, List, [],
  ◌∷◌, ◌++◌, map, arith, ltb, leb, eqb, is_some, Bool-cases, Option-cases, if◌then◌else◌,
}
use gosoline.Clock.Fake.{
  pos, negsuc, Sleeper, Timer, Clock, advance_sleeper, advance_sleepers, advance_timer,
  advance_ticker, with_sleepers, keep_all, advance, after, new_timer, advance_all,
}

-- A timer that has so much left, on a clock that shows `now`, after a run: its channel has the time
-- that the clock showed at the first call that reached it, if there was one.
abbrev pub expected : ℕ → ℕ → List ℕ → Timer
expected now left [] = record { channel = none; remaining = pos left }
expected now left (d ∷ ds) =
    let later = expected (now + d) (left - d) ds in
    if ltb d left then later else record { channel = some (now + d); remaining = pos 0 }

map-snoc :
    {A B : Type 0} (f : A → B) (xs : List A) (x : A) → map f (xs ++ x ∷ []) ≡ map f xs ++ f x ∷ []
map-snoc f [] x = refl
map-snoc f (y ∷ ys) x = ap (λ t. f y ∷ t) (map-snoc f ys x)

-- A clock with one more timer.
abbrev pub with_timer : Clock → Timer → Clock
with_timer c t = record c { timers = c.timers ++ t ∷ [] }

abbrev pub map_clock : (Clock → Clock) → Option Clock → Option Clock
map_clock f none = none
map_clock f (some c) = some (f c)

with_sleepers-with_timer :
    (c : Clock) (t : Timer) (d : ℕ) (o : Option (List Sleeper))
    → with_sleepers (with_timer c t) d o
      ≡ map_clock (λ c'. with_timer c' (advance_timer (c.now + d) d t)) (with_sleepers c d o)
with_sleepers-with_timer c t d none = refl
with_sleepers-with_timer c t d (some sleepers) =
    ap
      (λ timers. some (record {
        now = c.now + d;
        sleepers = sleepers;
        timers = timers;
        tickers = map (advance_ticker (c.now + d) d) c.tickers;
      }))
      (map-snoc (advance_timer (c.now + d) d) c.timers t)

advance-with_timer :
    (c : Clock) (t : Timer) (d : ℕ)
    → advance (with_timer c t) d
      ≡ map_clock (λ c'. with_timer c' (advance_timer (c.now + d) d t)) (advance c d)
unfolding advance
advance-with_timer c t d =
    with_sleepers-with_timer c t d (advance_sleepers (c.now + d) d c.sleepers)

abbrev now_or_zero : Option Clock → ℕ
now_or_zero none = 0
now_or_zero (some c) = c.now

now-with_sleepers :
    (c c' : Clock) (d : ℕ) (o : Option (List Sleeper))
    → with_sleepers c d o ≡ some c'
    → c'.now ≡ c.now + d
now-with_sleepers c c' d none h = absurd (ground (arith, h))
now-with_sleepers c c' d (some sleepers) h = sym (ap now_or_zero h)

now-advance : (c c' : Clock) (d : ℕ) → advance c d ≡ some c' → c'.now ≡ c.now + d
unfolding advance
now-advance c c' d h = now-with_sleepers c c' d (advance_sleepers (c.now + d) d c.sleepers) h

-- A timer that does not change in one call does not change in a run.
module _ (t : Timer) (still : (now d : ℕ) → advance_timer now d t ≡ t) where
  advance_all-still :
      (c : Clock) (ds : List ℕ)
      → advance_all (with_timer c t) ds ≡ map_clock (λ c'. with_timer c' t) (advance_all c ds)
  unfolding advance_all
  advance_all-still c [] = refl
  advance_all-still c (d ∷ ds) = elim (Option-cases (advance c d)) [
    | inl hangs ↦ rw (advance-with_timer c t d, hangs) refl
    | inr (c', runs) ↦
        rw (advance-with_timer c t d, runs, still (c.now + d) d) (advance_all-still c' ds)
  ]

advance_timer-fired :
    (at now d : ℕ)
    → advance_timer now d (record { channel = some at; remaining = pos 0 })
      ≡ record { channel = some at; remaining = pos 0 }
unfolding advance_timer
advance_timer-fired at now d = let never : ltb d 0 ≡ false = ground arith in rw never refl

advance_timer-waits :
    (now d left : ℕ)
    → ltb d left ≡ true
    → advance_timer now d (record { channel = none; remaining = pos left })
      ≡ record { channel = none; remaining = pos (left - d) }
unfolding advance_timer
advance_timer-waits now d left h = rw h refl

advance_timer-fires :
    (now d left : ℕ)
    → 1 ≤ left
    → ltb d left ≡ false
    → advance_timer now d (record { channel = none; remaining = pos left })
      ≡ record { channel = some now; remaining = pos 0 }
unfolding advance_timer
advance_timer-fires now d left p h =
    let running : eqb left 0 ≡ false = ground arith in rw (h, running) refl

advance_all-waiting :
    (c : Clock) (left : ℕ) (ds : List ℕ)
    → 1 ≤ left
    → advance_all (with_timer c (record { channel = none; remaining = pos left })) ds
      ≡ map_clock (λ c'. with_timer c' (expected c.now left ds)) (advance_all c ds)
unfolding advance_all
advance_all-waiting c left [] p = refl
advance_all-waiting c left (d ∷ ds) p =
    let t : Timer = record { channel = none; remaining = pos left } in
    elim (Option-cases (advance c d)) [
      | inl hangs ↦ rw (advance-with_timer c t d, hangs) refl
      | inr (c', runs) ↦ elim (Bool-cases (ltb d left)) [
        | inl waits ↦
            rw
              (
                advance-with_timer c t d,
                runs,
                advance_timer-waits (c.now + d) d left waits,
                waits,
                sym (now-advance c c' d runs),
              )
              (advance_all-waiting c' (left - d) ds (ground (arith, waits)))
        | inr fires ↦
            rw
              (
                advance-with_timer c t d,
                runs,
                advance_timer-fires (c.now + d) d left p fires,
                fires,
              )
              (advance_all-still (record { channel = some (c.now + d); remaining = pos 0 })
                (λ now e. advance_timer-fired (c.now + d) now e) c' ds)
      ]
    ]

abbrev pub total : List ℕ → ℕ
total [] = 0
total (d ∷ ds) = d + total ds

is_some-expected :
    (now left : ℕ) (ds : List ℕ)
    → 1 ≤ left
    → is_some (expected now left ds).channel ≡ leb left (total ds)
is_some-expected now left [] p = ground arith
is_some-expected now left (d ∷ ds) p = elim (Bool-cases (ltb d left)) [
  | inl waits ↦ rw waits (ground (arith, waits, is_some-expected (now + d) (left - d) ds))
  | inr fires ↦ rw fires (ground (arith, fires))
]

-- A timer of a positive duration, through any run of calls of Advance that does not hang: it has fired
-- exactly if the calls add up to its duration, its channel then has the time that the clock showed at
-- the first call that reached it, and the other timers are as without it.
pub timer_fires :
    (c : Clock) (left : ℕ) (ds : List ℕ)
    → 1 ≤ left
    → (advance_all (new_timer c (pos left)) ds
        ≡ map_clock (λ c'. with_timer c' (expected c.now left ds)) (advance_all c ds))
      × (is_some (expected c.now left ds).channel ≡ leb left (total ds))
unfolding new_timer
timer_fires c left ds p =
    let armed : eqb left 0 ≡ false = ground arith in
    (rw armed (advance_all-waiting c left ds p), is_some-expected c.now left ds p)

keep_all-none : (o : Option (Bool × Sleeper)) → keep_all o none ≡ none
keep_all-none none = refl
keep_all-none (some r) = refl

advance_sleepers-hangs :
    (t d : ℕ) (xs : List Sleeper) (s : Sleeper)
    → advance_sleeper t d s ≡ none
    → advance_sleepers t d (xs ++ s ∷ []) ≡ none
unfolding advance_sleepers
advance_sleepers-hangs t d [] s h = rw h refl
advance_sleepers-hangs t d (x ∷ xs) s h =
    rw (advance_sleepers-hangs t d xs s h) (keep_all-none (advance_sleeper t d x))

-- After of a negative duration fires at once, and is due again at the next Advance: as long as nobody
-- has read the channel, Advance waits on it for ever.
pub after_negative_hangs : (c : Clock) (n d : ℕ) → advance (after c (negsuc n)) d ≡ none
unfolding advance after advance_sleeper
after_negative_hangs c n d =
    rw
      (advance_sleepers-hangs (c.now + d) d c.sleepers
        (record { channel = some c.now; remaining = negsuc n }) refl)
      refl
