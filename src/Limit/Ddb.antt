-- ===== src/Limit/Ddb.antt =====
-- The backend of pkg/limit/fixed_window_ddb.go, which counts the requests of a window in an item of a table
-- of DynamoDB.
pub mod Resets
use gosoline.Prelude.{ℕ, ◌+◌, ◌≡◌, Bool, true, false, Option, none, some, ltb, if◌then◌else◌}
use gosoline.Limit.FixedWindow.{Incremented, sub_ℕ}

-- window: times are Unix seconds
pub record Window : Type 0 where
  pub val : ℕ
  pub ttl : ℕ

-- UpdateItem of the repository, on the item of one key: a condition on the item, if there is one, and what
-- the item is then set to, all at once. It returns the new item, or that the condition failed.
pub record Repository (D : Type 0) : Type 0 where
  pub item : D → Option Window
  pub update_item : (Option Window → Bool) → (Option Window → Window) → D → Option Window × D

-- What is documented of a conditional update.
pub record RepositoryLaws {D : Type 0} (repo : Repository D) : Type 0 where
  pub fits :
      (condition : Option Window → Bool) (set : Option Window → Window) (d : D)
      → condition (repo.item d) ≡ true
      → ((repo.update_item condition set d).0 ≡ some (set (repo.item d)))
        × (repo.item (repo.update_item condition set d).1 ≡ some (set (repo.item d)))
  pub fails :
      (condition : Option Window → Bool) (set : Option Window → Window) (d : D)
      → condition (repo.item d) ≡ false
      → ((repo.update_item condition set d).0 ≡ none)
        × (repo.item (repo.update_item condition set d).1 ≡ repo.item d)

-- AttributeNotExists(ttl) or ttl < now
abbrev pub is_over : ℕ → Option Window → Bool
is_over now none = true
is_over now (some w) = ltb w.ttl now

-- Set(val, 1), and SetIfNotExist(ttl, now + window)
abbrev pub reset : ℕ → ℕ → Option Window → Window
reset now window none = record { val = 1; ttl = now + window }
reset now window (some w) = record { val = 1; ttl = w.ttl }

-- Add(val, 1), which makes an item where there is none
abbrev pub add_one : Option Window → Window
add_one none = record { val = 1; ttl = 0 }
add_one (some w) = record { val = w.val + 1; ttl = w.ttl }

abbrev pub always : Option Window → Bool
always w = true

abbrev pub result_of : ℕ → Option Window → Option Incremented
result_of now none = none
result_of now (some w) = some (record { incr = w.val; ttl = sub_ℕ w.ttl now })

module _ {D : Type 0} (repo : Repository D) (window : ℕ) where
  -- what Increment does with the response of the reset
  abbrev pub after_reset : ℕ → Option Window × D → Option Incremented × D
  after_reset now (some w, d) = (result_of now (some w), d)
  after_reset now (none, d) = let (w, e) = repo.update_item always add_one d in (result_of now w, e)

  -- Increment, at a time; UpdateItem is taken to return no error
  unfoldable pub increment : ℕ → D → Option Incremented × D
  increment now d = after_reset now (repo.update_item (is_over now) (reset now window) d)
