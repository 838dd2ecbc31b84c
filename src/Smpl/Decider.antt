-- ===== src/Smpl/Decider.antt =====
-- `defaultDecider` of pkg/smpl/decider.go, which asks strategies in turn whether a request is sampled.
pub mod Sticks
use gosoline.Prelude.{
  ℕ, ◌+◌, Bool, true, false, Option, none, some, List, [], ◌∷◌, ◌++◌, if◌then◌else◌,
}

-- What a strategy answers: whether it applies, and whether the request is sampled; none for an error.
abbrev pub Answer : Type 0
Answer = Option (Bool × Bool)

-- Strategy: it may change the state W that the strategies have.
abbrev pub Strategy : Type 0 → Type 0
Strategy W = W → Answer × W

pub record Decider (W : Type 0) : Type 0 where
  pub enabled : Bool
  pub strategies : List (Strategy W)

-- What Decide returns and leaves: the sampling in the context, the decision, whether there was an error,
-- the number of data points that were written, and the state of the strategies.
pub record Decision (W : Type 0) : Type 0 where
  pub sampling : Option Bool
  pub sampled : Bool
  pub failed : Bool
  pub written : ℕ
  pub world : W

module _ {W : Type 0} where
  -- the loop of Decide: none for an error, and to sample if no strategy applies
  unfoldable pub first_applied : List (Strategy W) → W → Option Bool × W
  first_applied [] w = (some true, w)
  first_applied (strategy ∷ rest) w =
      let (answer, v) = strategy w in
      let later = first_applied rest v in
      elim answer [
        | none ↦ (none, v)
        | some (is_applied, is_sampled) ↦ elim is_applied [
          | true ↦ (some is_sampled, v)
          | false ↦ later
        ]
      ]

  abbrev pub unchanged : Option Bool → Bool → Bool → W → Decision W
  unchanged before sampled failed w = record {
    sampling = before;
    sampled = sampled;
    failed = failed;
    written = 0;
    world = w;
  }

  abbrev pub concluded : Option Bool × W → Decision W
  concluded (none, w) = unchanged none true true w
  concluded (some sampled, w) = record {
    sampling = some sampled;
    sampled = sampled;
    failed = false;
    written = 1;
    world = w;
  }

  -- Decide, where sampling is enabled: `before` is the sampling that the context has
  unfoldable pub decide_by : List (Strategy W) → Option Bool → W → Decision W
  unfolding first_applied
  decide_by strategies (some sampled) w = unchanged (some sampled) sampled false w
  decide_by strategies none w = concluded (first_applied strategies w)

  -- Decide
  unfoldable pub decide : Decider W → Option Bool → List (Strategy W) → W → Decision W
  unfolding decide_by
  decide d before overwrite w =
      if d.enabled
      then decide_by (overwrite ++ d.strategies) before w
      else unchanged before true false w
