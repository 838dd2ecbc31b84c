-- ===== src/Limit/Ddb/Resets.antt =====
-- How pkg/limit/fixed_window_ddb.go counts.
use gosoline.Prelude.{
  ℕ, ◌+◌, ◌≤◌, ◌<◌, ◌≡◌, refl, ap, ◌∙◌, Option, none, some, List, [], ◌∷◌, All, arith,
}
use gosoline.Limit.FixedWindow.{Incremented, sub_ℕ}
use gosoline.Limit.Ddb.{
  Window, Repository, RepositoryLaws, is_over, reset, add_one, always, result_of, after_reset,
  increment,
}

abbrev counter_of : Option Incremented → Option ℕ
counter_of none = none
counter_of (some r) = some r.incr

module _ {D : Type 0} (repo : Repository D) (laws : RepositoryLaws repo) (window : ℕ) where
  after_reset_fits :
      (now : ℕ) (r : Option Window × D) (w : Window)
      → r.0 ≡ some w
      → after_reset repo window now r ≡ (result_of now (some w), r.1)
  after_reset_fits now (some v, d) w e = ap (λ o. (result_of now o, d)) e
  after_reset_fits now (none, d) w e = cc

  after_reset_fails :
      (now : ℕ) (r : Option Window × D)
      → r.0 ≡ none
      → let s = repo.update_item always add_one r.1 in
        after_reset repo window now r ≡ (result_of now s.0, s.1)
  after_reset_fails now (some v, d) e = cc
  after_reset_fails now (none, d) e = refl

  -- Within the window of an item, the counter goes up by one, and the window stays.
  increment_counts :
      (now : ℕ) (d : D) (w : Window)
      → repo.item d ≡ some w
      → now ≤ w.ttl
      → ((increment repo window now d).0
          ≡ some (record { incr = w.val + 1; ttl = sub_ℕ w.ttl now }))
        × (repo.item (increment repo window now d).1
            ≡ some (record { val = w.val + 1; ttl = w.ttl }))
  unfolding increment
  increment_counts now d w e h =
      let r = repo.update_item (is_over now) (reset now window) d in
      let (p, q) =
        laws.fails (is_over now) (reset now window) d (ap (is_over now) e ∙ ground arith) in
      let (pp, qq) = laws.fits always add_one r.1 refl in
      let now_item : repo.item r.1 ≡ some w = q ∙ e in
      rw (after_reset_fails now r p) (
        ap (result_of now) (pp ∙ ap (λ o. some (add_one o)) now_item),
        qq ∙ ap (λ o. some (add_one o)) now_item,
      )

  -- Once the window of an item is over, a call gives the counter 1, and the item stays over: its time to
  -- live is set only where there is none.
  increment_over :
      (now : ℕ) (d : D) (w : Window)
      → repo.item d ≡ some w
      → w.ttl < now
      → ((increment repo window now d).0 ≡ some (record { incr = 1; ttl = sub_ℕ w.ttl now }))
        × (repo.item (increment repo window now d).1 ≡ some (record { val = 1; ttl = w.ttl }))
  unfolding increment
  increment_over now d w e h =
      let r = repo.update_item (is_over now) (reset now window) d in
      let (p, q) =
        laws.fits (is_over now) (reset now window) d (ap (is_over now) e ∙ ground arith) in
      rw
        (after_reset_fits now r (record { val = 1; ttl = w.ttl })
          (p ∙ ap (λ o. some (reset now window o)) e))
        (refl, q ∙ ap (λ o. some (reset now window o)) e)

  -- The counters of a run of calls, at these times.
  abbrev pub counters : List ℕ → D → List (Option ℕ)
  counters [] d = []
  counters (now ∷ nows) d =
      let r = increment repo window now d in counter_of r.0 ∷ counters nows r.1

  -- Once the window of an item is over, the counter is 1 at every later call, however many they are: no
  -- later window is ever opened, as the reset leaves a time to live that is there as it is.
  pub window_over_counts_nothing :
      (nows : List ℕ) (d : D) (w : Window)
      → repo.item d ≡ some w
      → All (λ now. w.ttl < now) nows
      → All (λ c. c ≡ some 1) (counters nows d)
  window_over_counts_nothing [] d w e h = tt
  window_over_counts_nothing (now ∷ nows) d w e (h, hs) =
      let (p, q) = increment_over now d w e h in
      (
        ap counter_of p,
        window_over_counts_nothing nows (increment repo window now d).1
            (record { val = 1; ttl = w.ttl }) q hs,
      )
