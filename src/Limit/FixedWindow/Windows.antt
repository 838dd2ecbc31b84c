-- ===== src/Limit/FixedWindow/Windows.antt =====
-- In which window the requests of pkg/limit/fixed_window.go pass.
use gosoline.Prelude.{
  ℕ, zero, suc, ◌+◌, ◌-◌, ◌*◌, ◌/◌, ◌≤◌, ◌<◌, ◌≡◌, refl, ap, inl, inr, true, false, Option, none,
  some, leb, arith, Bool-cases, if◌then◌else◌,
}
use gosoline.Clock.Fake.{pos}
use gosoline.Limit.FixedWindow.{
  FixedWindowConfig, Incremented, Passage, passes, passes_after, after_increment,
}

-- When a request passes that was made at `now`, if it does.
abbrev pub passes_at : ℕ → Passage → Option ℕ
passes_at now passes = some now
passes_at now (passes_after (pos d)) = some (now + d)
passes_at now _ = none

next_turn : (cap v : ℕ) → 0 < cap → cap ≤ v → (v - cap) / cap + 1 ≡ v / cap
next_turn cap v p q = grind arith

pred_suc : (v : ℕ) → suc v - 1 ≡ v
pred_suc v = omega arith

turn_zero : (cap v : ℕ) → v < cap → v / cap ≡ 0
turn_zero cap v p = grind arith

-- The start of a later turn, reached from any time of the window that the counter belongs to.
turn_start :
    (cap v window start now : ℕ)
    → 0 < cap
    → cap ≤ v
    → now ≤ start + window
    → now + (start + window - now + ((v - cap) / cap) * window) ≡ start + (v / cap) * window
turn_start cap v window start now p q r =
    omega
      (arith, ap (λ (k : ℕ). k * window) (next_turn cap v p q), one_more ((v - cap) / cap) window)
  where
    one_more : (k w : ℕ) → (k + 1) * w ≡ k * w + w
    one_more k w = grind arith

-- A counter that starts at 0 when a window opens at `start`, and whose time to live ends with the window:
-- the request that finds it at v, at a time of the window, passes in the turn v / cap, at once in turn 0
-- and else as the turn opens. So each turn lets as many requests of a counter pass as the capacity.
pub passes_in_turn :
    (cap window start now v : ℕ)
    → 0 < cap
    → start ≤ now
    → now < start + window
    → let r : Incremented = record { incr = suc v; ttl = pos (start + window - now) } in
      let t = if leb cap v then start + (v / cap) * window else now in
      (passes_at now (after_increment (record { cap = cap; window = window }) false (some r))
        ≡ some t)
      × (start + (v / cap) * window ≤ t)
      × (t < start + (v / cap) * window + window)
unfolding after_increment
passes_in_turn zero window start now v p q r = absurd (omega arith)
passes_in_turn (suc c) window start now v p q r = elim (Bool-cases (leb (suc c) v)) [
  | inl over ↦
      let e = turn_start (suc c) v window start now p (ground (arith, over)) (omega arith) in
      rw (pred_suc v, over) (ap some e, omega arith, omega arith)
  | inr under ↦
      let z : v / suc c ≡ 0 = turn_zero (suc c) v (ground (arith, under)) in
      rw (pred_suc v, under, z) (refl, omega arith, omega arith)
]

-- The counter of the next window starts at 0 again, and knows nothing of the requests that wait for it:
-- as many requests as the capacity that came in the window before pass as it opens, and as many that find
-- the new counter below the capacity pass at once, which is twice the capacity in one window.
next_window_overshoots :
    (cap window start now late i : ℕ)
    → i < cap
    → start ≤ now
    → now < start + window
    → let config : FixedWindowConfig = record { cap = cap; window = window } in
      let waiting : Incremented = record {
        incr = suc (cap + i);
        ttl = pos (start + window - now);
      } in
      let fresh : Incremented = record {
        incr = suc i;
        ttl = pos (start + window + window - late);
      } in
      (passes_at now (after_increment config false (some waiting)) ≡ some (start + window))
      × (passes_at late (after_increment config false (some fresh)) ≡ some late)
unfolding after_increment
next_window_overshoots zero window start now late i p q r = absurd (omega arith)
next_window_overshoots (suc c) window start now late i p q r =
    let over : leb (suc c) (suc c + i) ≡ true = ground arith in
    let under : leb (suc c) i ≡ false = ground arith in
    let z : (suc c + i - suc c) / suc c ≡ 0 = grind arith in
    (rw (pred_suc (suc c + i), over, z) (ap some (omega arith)), rw (pred_suc i, under) refl)
