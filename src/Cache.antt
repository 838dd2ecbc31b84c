-- ===== src/Cache.antt =====
-- `cache` of pkg/cache/ccache.go: a typed cache with expiry over the package karlseguin/ccache,
-- whose cache is a parameter. Two calls for one key are kept apart by a lock on the key: each
-- operation here is one call. Time passes between the calls.
pub mod Provide
pub mod Examples
use gosoline.Prelude.{
  ◌≡◌, ◌≢◌, ◌⊎◌, Bool, true, false, not, Option, none, some, is_some, ℕ, ltb, if◌then◌else◌,
}

-- *ccache.Item
pub record Item (T : Type 0) : Type 0 where
  pub value : T
  pub expired : Bool

-- *ccache.Cache: `get` marks the item as used, and `expire_item` is `Extend` by a negative time.
pub record Base (C K T : Type 0) : Type 0 where
  pub get : C → K → Option (Item T) × C
  pub set : C → K → T → ℕ → C
  pub delete : C → K → Bool × C
  pub expire_item : C → K → C

-- The value of an item that has not expired.
abbrev pub live : {T : Type 0} → Option (Item T) → Option T
live none = none
live (some item) = if item.expired then none else some item.value

-- What ccache promises: it may drop an item at any call, and makes none up.
pub record BaseLaws {C K T : Type 0} (b : Base C K T) : Type 0 where
  pub get_frame :
      (c : C) (k j : K) (v : T)
      → live (b.get (b.get c k).1 j).0 ≡ some v
      → live (b.get c j).0 ≡ some v
  pub set_adds :
      (c : C) (k j : K) (v w : T) (ttl : ℕ)
      → live (b.get (b.set c k v ttl) j).0 ≡ some w
      → ((k ≡ j) × (w ≡ v)) ⊎ (live (b.get c j).0 ≡ some w)
  pub set_replaces :
      (c : C) (k : K) (v w : T) (ttl : ℕ) → live (b.get (b.set c k v ttl) k).0 ≡ some w → w ≡ v
  pub expire_expires : (c : C) (k : K) → live (b.get (b.expire_item c k) k).0 ≡ none
  pub expire_frame :
      (c : C) (k j : K) (v : T)
      → live (b.get (b.expire_item c k) j).0 ≡ some v
      → live (b.get c j).0 ≡ some v

-- `ttl` and `not_found_ttl` are durations, which no code makes negative.
pub record Cache (C : Type 0) : Type 0 where
  pub base : C
  pub ttl : ℕ
  pub not_found_ttl : ℕ

-- NewWithConfiguration, with WithNotFoundTtl
unfoldable new_cache : {C : Type 0} → C → ℕ → ℕ → Cache C
new_cache base ttl not_found_ttl = record { base = base; ttl = ttl; not_found_ttl = not_found_ttl }

-- `is_zero` is `isZero`, which asks `reflect`.
module _ {C K T : Type 0} (b : Base C K T) (is_zero : T → Bool) where
  unfoldable pub delete : Cache C → K → Bool × Cache C
  delete c key = let (present, base) = b.delete c.base key in (present, record c { base = base })

  unfoldable pub set_x : Cache C → K → T → ℕ → Cache C
  set_x c key value ttl = record c { base = b.set c.base key value ttl }

  unfoldable pub set : Cache C → K → T → Cache C
  unfolding set_x
  set c key value = set_x c key value c.ttl

  -- (T, bool): the value, if it was found
  unfoldable pub get : Cache C → K → Option T × Cache C
  get c key = let (item, base) = b.get c.base key in (live item, record c { base = base })

  unfoldable pub contains : Cache C → K → Bool × Cache C
  unfolding get
  contains c key = let (value, c') = get c key in (is_some value, c')

  unfoldable pub expire : Cache C → K → Bool × Cache C
  expire c key =
      let (item, base) = b.get c.base key in
      if is_some item
      then (true, record c { base = b.expire_item base key })
      else (false, record c { base = base })

  -- what `mutate` and `provide` do with a new value
  unfoldable pub store_new : Cache C → K → T → ℕ → Cache C
  unfolding set_x
  store_new c key value ttl =
      if not (is_zero value)
      then set_x c key value ttl
      else if ltb 0 c.not_found_ttl
      then set_x c key value c.not_found_ttl
      else c

  -- mutate: `f` is given the value that is cached, if there is one
  unfoldable mutate_x : Cache C → K → (Option T → T) → ℕ → T × Cache C
  unfolding get
  mutate_x c key f ttl =
      let (value, c') = get c key in
      let mutated = f value in (mutated, store_new c' key mutated ttl)

  unfoldable mutate : Cache C → K → (Option T → T) → T × Cache C
  mutate c key f = mutate_x c key f c.ttl

  -- provide: the provider is an action on the program's state `P`, and says whether its value is good
  module _ {P : Type 0} where
    -- what the provider returned is stored, unless it is not good
    unfoldable pub finish_provide : Cache C → K → T × Bool × P → (T × Bool) × Cache C × P
    finish_provide c key (result, true, p) = ((result, true), store_new c key result c.ttl, p)
    finish_provide c key (result, false, p) = ((result, false), c, p)

    unfoldable pub provide_after :
        Option T → Cache C → K → (P → T × Bool × P) → P → (T × Bool) × Cache C × P
    provide_after (some result) c key provider p = ((result, true), c, p)
    provide_after none c key provider p = finish_provide c key (provider p)

    unfoldable pub provide : Cache C → K → (P → T × Bool × P) → P → (T × Bool) × Cache C × P
    unfolding get
    provide c key provider p = let (value, c') = get c key in provide_after value c' key provider p

    -- the function that Provide passes on
    abbrev pub always : (P → T × P) → P → T × Bool × P
    always provider p = let (result, q) = provider p in (result, true, q)

    -- Provide
    unfoldable pub provide_value : Cache C → K → (P → T × P) → P → T × Cache C × P
    provide_value c key provider p =
        let ((result, ok), c', q) = provide c key (always provider) p in (result, c', q)

  -- ProvideWithError, whose provider may fail; `zero_value` is what `var noResult T` holds
  module _ {P E : Type 0} (zero_value : T) where
    -- the function that it passes on, which sets its variable `err`
    abbrev pub with_err : (P → (T × Option E) × P) → P × Option E → T × Bool × (P × Option E)
    with_err provider (p, err) =
        let ((result, failed), q) = provider p in (result, not (is_some failed), (q, failed))

    unfoldable pub provide_with_error :
        Cache C → K → (P → (T × Option E) × P) → P → (T × Option E) × Cache C × P
    provide_with_error c key provider p =
        let ((result, ok), c', (q, err)) = provide c key (with_err provider) (p, none) in
        (if ok then (result, none) else (zero_value, err), c', q)
