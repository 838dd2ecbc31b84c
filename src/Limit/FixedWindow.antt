-- ===== src/Limit/FixedWindow.antt =====
-- `fixedWindow` of pkg/limit/fixed_window.go, with the middleware of middleware.go that it calls. The
-- invocation, which only names the request, is left out.
pub mod Windows
use Prim.Native.String.{String}
use gosoline.Prelude.{
  ℕ, zero, suc, ◌+◌, ◌-◌, ◌*◌, ◌/◌, Bool, true, false, Option, none, some, List, [], ◌∷◌, ◌++◌, leb,
  if◌then◌else◌,
}
use gosoline.Clock.Fake.{ℤ, pos, negsuc}

-- a - b, and a + n
abbrev pub sub_ℕ : ℕ → ℕ → ℤ
sub_ℕ a b = if leb b a then pos (a - b) else negsuc (b - a - 1)

abbrev add_ℕ : ℤ → ℕ → ℤ
add_ℕ (pos a) n = pos (a + n)
add_ℕ (negsuc a) n = sub_ℕ n (suc a)

-- FixedWindowConfig
pub record FixedWindowConfig : Type 0 where
  pub cap : ℕ
  pub window : ℕ

-- What Increment returns: the counter, which starts at 1, and the time to live.
pub record Incremented : Type 0 where
  pub incr : ℕ
  pub ttl : ℤ

-- Incrementer: an error is none
abbrev Incrementer : Type 0 → Type 0
Incrementer W = String → W → Option Incremented × W

-- The hooks of Middleware, in the order of their calls.
pub data Hook : Type 0 where
  on_take on_release on_error on_throttle : Hook

-- chainedMiddleware: each hook is called on every member, which is known by its place
unfoldable call_all : {A : Type 0} → List A → Hook → List (A × Hook)
call_all [] hook = []
call_all (m ∷ ms) hook = (m, hook) ∷ call_all ms hook

-- What becomes of a request: it passes at once, it passes after a timer of this duration, its context is
-- done before that, or the backend fails. With a capacity of 0 the division panics.
pub data Passage : Type 0 where
  passes : Passage
  passes_after : ℤ → Passage
  is_cancelled : ℤ → Passage
  fails : Passage
  panics : Passage

-- queueTime, for a counter that starts at 0
unfoldable queue_time : FixedWindowConfig → ℕ → ℤ → ℤ
queue_time config increment ttl =
    add_ℕ ttl (((increment - config.cap) / config.cap) * config.window)

-- The select: `done` is whether the context is done before the timer fires.
abbrev select : Bool → ℤ → Passage
select true d = is_cancelled d
select false d = passes_after d

abbrev throttle : FixedWindowConfig → Bool → ℕ → ℤ → Passage
throttle config done increment ttl = elim config.cap [
  | zero ↦ panics
  | suc c ↦ select done (queue_time config increment ttl)
]

unfoldable pub after_increment : FixedWindowConfig → Bool → Option Incremented → Passage
unfolding queue_time
after_increment config done none = fails
after_increment config done (some r) =
    let increment = r.incr - 1 in
    if leb config.cap increment then throttle config done increment r.ttl else passes

-- The hooks after on_take; a panic runs the deferred one as well, with no error.
abbrev hooks_of : Passage → List Hook
hooks_of passes = on_release ∷ []
hooks_of (passes_after d) = on_throttle ∷ on_release ∷ []
hooks_of (is_cancelled d) = on_throttle ∷ on_error ∷ []
hooks_of fails = on_error ∷ []
hooks_of panics = on_throttle ∷ on_release ∷ []

-- Wait: the passage, the hooks that were called, and the backend after it
unfoldable wait :
    {W : Type 0} → FixedWindowConfig → Incrementer W → Bool → String → W → Passage × List Hook × W
unfolding after_increment
wait config increment done prefix w =
    let (r, v) = increment prefix w in
    let passage = after_increment config done r in (passage, on_take ∷ hooks_of passage, v)
