-- ===== src/Conc/KeyLock.antt =====
-- `keyLock` of pkg/conc/key_lock.go: a lock per key, that exists while somebody uses it. The mutex `lck`
-- makes what is between its Lock and its Unlock one step; the entries are what the pointers of the map
-- and of the closures point to, so that an entry that was deleted from the map stays.
mod Users
pub mod Counts
mod Moves
mod Release
pub mod Exclusion
use gosoline.Prelude.{
  ℕ, ◌+◌, ◌-◌, ◌≡◌, Option, none, some, List, [], ◌∷◌, eqb, lookup, assign, remove_key, Comparable,
  if◌then◌else◌,
}

-- entry, with its embedded mutex: held by a goroutine or free
pub record Entry : Type 0 where
  pub locked_by : Option ℕ
  pub ref_count : ℕ

-- Where a goroutine is in `Lock` and in the function that it returns.
pub data Phase (K : Type 0) : Type 0 where
  outside : Phase K
  -- after `l.lck.Unlock()`, before `lockEntry.Lock()` has returned
  waiting : K → ℕ → Phase K
  -- Lock has returned, and the UnlockFunc was not called
  holding : K → ℕ → Phase K

-- The map, from a key to the address of its entry, the entries by address, and the goroutines.
pub record State (K : Type 0) : Type 0 where
  pub entries : List (K × ℕ)
  pub heap : ℕ → Entry
  pub next_address : ℕ
  pub phase : ℕ → Phase K

abbrev pub put_at {ℓ} : {A : Type ℓ} → ℕ → A → (ℕ → A) → ℕ → A
put_at i a f j = if eqb i j then a else f j

module _ {K : Type 0} ⦃e : Comparable K⦄ where
  -- lockEntry, ok := l.entries[key]; if !ok { ... }
  unfoldable pub entry_of : K → State K → ℕ × State K
  entry_of key s = elim (lookup key s.entries) [
    | some address ↦ (address, s)
    | none ↦ (
      s.next_address,
      record s {
        entries = assign key s.next_address s.entries;
        heap = put_at s.next_address (record { locked_by = none; ref_count = 0 }) s.heap;
        next_address = s.next_address + 1;
      },
    )
  ]

  -- lockEntry.refCount++
  unfoldable pub join : ℕ → K → ℕ → State K → State K
  join g key address s = record s {
    heap =
        put_at address (record (s.heap address) { ref_count = (s.heap address).ref_count + 1 })
          s.heap;
    phase = put_at g (waiting key address) s.phase;
  }

  -- Lock up to the Unlock of `lck`
  unfoldable pub request : ℕ → K → State K → State K
  unfolding entry_of join
  request g key s = let (address, t) = entry_of key s in join g key address t

  -- lockEntry.Lock(), of an entry that nobody has locked
  unfoldable pub acquire : ℕ → K → ℕ → State K → State K
  acquire g key address s = record s {
    heap = put_at address (record (s.heap address) { locked_by = some g }) s.heap;
    phase = put_at g (holding key address) s.phase;
  }

  -- the UnlockFunc
  unfoldable pub release : ℕ → K → ℕ → State K → State K
  release g key address s =
      let entry = record (s.heap address) {
        locked_by = none;
        ref_count = (s.heap address).ref_count - 1;
      } in
      record s {
        entries = if eqb entry.ref_count 0 then remove_key key s.entries else s.entries;
        heap = put_at address entry s.heap;
        phase = put_at g outside s.phase;
      }

  -- NewKeyLock
  abbrev pub new_key_lock : State K
  new_key_lock = record {
    entries = [];
    heap = λ address. record { locked_by = none; ref_count = 0 };
    next_address = 0;
    phase = λ g. outside;
  }

  -- What a goroutine can do. A goroutine calls Lock when it is outside, and its UnlockFunc once.
  pub data Step (s : State K) : State K → Type 0 where
    requests : (g : ℕ) (key : K) → s.phase g ≡ outside → Step s (request g key s)
    acquires :
        (g : ℕ) (key : K) (address : ℕ)
        → s.phase g ≡ waiting key address
        → (s.heap address).locked_by ≡ none
        → Step s (acquire g key address s)
    releases :
        (g : ℕ) (key : K) (address : ℕ)
        → s.phase g ≡ holding key address
        → Step s (release g key address s)

  pub data Reachable : State K → Type 0 where
    starts : Reachable new_key_lock
    steps : (s t : State K) → Reachable s → Step s t → Reachable t
