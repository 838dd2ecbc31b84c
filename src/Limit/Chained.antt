-- ===== src/Limit/Chained.antt =====
-- `chained` of pkg/limit/chained.go.
use mathlib.Core.List.{List, [], ◌∷◌, ◌++◌}
use Prim.Native.String.{String}
use gosoline.Prelude.{◌≡◌, refl, Option, none, some}

-- Limiter: Wait of a prefix, on the state of all limiters
abbrev Limiter : Type 0 → Type 0 → Type 0
Limiter W E = String → W → Option E × W

-- the rest of the loop, unless there was an error
abbrev and_then : {W E : Type 0} → Option E × W → (W → Option E × W) → Option E × W
and_then (none, v) later = later v
and_then (some e, v) later = (some e, v)

-- Wait of a chain
unfoldable wait_all : {W E : Type 0} → List (Limiter W E) → Limiter W E
wait_all [] prefix w = (none, w)
wait_all (limiter ∷ limiters) prefix w =
    and_then (limiter prefix w) (λ v. wait_all limiters prefix v)

-- Chain, whose error is always nil
abbrev chain : {W E : Type 0} → List (Limiter W E) → Limiter W E
chain limiters = wait_all limiters

and_then_assoc :
    {W E : Type 0} (r : Option E × W) (f g h : W → Option E × W)
    → ((v : W) → h v ≡ and_then (f v) g)
    → and_then r h ≡ and_then (and_then r f) g
and_then_assoc (none, v) f g h e = e v
and_then_assoc (some x, v) f g h e = refl

-- A chain in a chain is as good as the longer chain: the limiters are waited on in order, and none after
-- the first error.
chain-append :
    {W E : Type 0} (front back : List (Limiter W E)) (prefix : String) (w : W)
    → chain (front ++ back) prefix w ≡ chain (chain front ∷ back) prefix w
unfolding wait_all
chain-append [] back prefix w = refl
chain-append (limiter ∷ front) back prefix w =
    and_then_assoc (limiter prefix w) (λ v. wait_all front prefix v) (λ v. wait_all back prefix v)
      (λ v. wait_all (front ++ back) prefix v) (λ v. chain-append front back prefix v)
