-- ===== src/Cache/Provide.antt =====
-- What `provide` and `mutate` of pkg/cache/ccache.go leave in the cache.
use gosoline.Prelude.{
  ℕ, ◌≡◌, refl, sym, ap, ◌≢◌, ◌⊎◌, inl, inr, Bool, true, false, Option, none, some, arith,
  Bool-cases, Option-cases, Comparable,
}
use gosoline.Cache.{
  Base, BaseLaws, Cache, live, get, store_new, finish_provide, provide_after, provide, with_err,
  provide_with_error,
}

module _ {C K T : Type 0} (b : Base C K T) (is_zero : T → Bool) (laws : BaseLaws b) where
  -- What a read of the key finds.
  abbrev pub cached : Cache C → K → Option T
  cached c k = live (b.get c.base k).0

  cached-store_new :
      (c : Cache C) (k j : K) (v w : T) (ttl : ℕ)
      → cached (store_new b is_zero c k v ttl) j ≡ some w
      → ((k ≡ j) × (w ≡ v)) ⊎ (cached c j ≡ some w)
  unfolding store_new
  cached-store_new c k j v w ttl p =
      ground (arith, laws.set_adds c.base k j v w ttl, laws.set_adds c.base k j v w c.not_found_ttl)

  cached-store_new_self :
      (c : Cache C) (k : K) (v w : T) (ttl : ℕ)
      → cached c k ≡ none
      → cached (store_new b is_zero c k v ttl) k ≡ some w
      → w ≡ v
  unfolding store_new
  cached-store_new_self c k v w ttl h p =
      ground
        (arith, laws.set_replaces c.base k v w ttl, laws.set_replaces c.base k v w c.not_found_ttl)

  cached-get :
      (c : Cache C) (k j : K) (w : T)
      → cached (get b is_zero c k).1 j ≡ some w
      → cached c j ≡ some w
  unfolding get
  cached-get c k j w p = laws.get_frame c.base k j w p

  cached-get_none :
      (c : Cache C) (k : K) → cached c k ≡ none → cached (get b is_zero c k).1 k ≡ none
  cached-get_none c k h = elim (Option-cases (cached (get b is_zero c k).1 k)) [
    | inl gone ↦ gone
    | inr (w, found) ↦ cc (cached-get c k k w found)
  ]

  module _ {P : Type 0} (provider : P → T × Bool × P) where
    -- What is cached after the provider has returned `r`, at a key that was not.
    finish_provide_caches :
        (c : Cache C) (k j : K) (r : T × Bool × P) (w : T)
        → cached c k ≡ none
        → cached (finish_provide b is_zero c k r).1 j ≡ some w
        → ((k ≡ j) × ((finish_provide b is_zero c k r).0 ≡ (w, true)))
          ⊎ ((k ≢ j) × (cached c j ≡ some w))
    unfolding finish_provide
    finish_provide_caches c k j (v, true, p) w gone h = elim (cached-store_new c k j v w c.ttl h) [
      | inl (same, e) ↦ inl (same, ap (λ t. (t, true)) (sym e))
      | inr old ↦ inr (λ same. cc (gone, old, same), old)
    ]
    finish_provide_caches c k j (v, false, p) w gone h = inr (λ same. cc (gone, h, same), h)

    -- What provide leaves in the cache.
    provide_caches :
        ⦃e : Comparable K⦄
        → (c : Cache C) (k j : K) (p : P) (w : T)
        → cached (provide b is_zero c k provider p).1 j ≡ some w
        → ((k ≡ j) × ((provide b is_zero c k provider p).0 ≡ (w, true)))
          ⊎ ((k ≢ j) × (cached c j ≡ some w))
    unfolding provide provide_after
    provide_caches ⦃e⦄ c k j p w h = elim (Option-cases (cached c k)) [
      | inr (v, hit) ↦
          let old : cached c j ≡ some w = cached-get c k j w (rw hit at h) in
          elim (Bool-cases (e.equals k j)) [
            | inl same ↦
                let q : k ≡ j = (e.equals_iff k j).0 same in inl (q, rw hit (cc (hit, old, q)))
            | inr other ↦ inr (λ q. cc (other, (e.equals_iff k j).1 q), old)
          ]
      | inl miss ↦
          elim (finish_provide_caches (get b is_zero c k).1 k j (provider p) w
            (cached-get_none c k miss) (rw miss at h)) [
              | inl (same, e) ↦ inl (same, rw miss e)
              | inr (other, old) ↦ inr (other, cached-get c k j w old)
            ]
    ]

  module _ {P E : Type 0} (zero_value : T) (provider : P → (T × Option E) × P) where
    -- ProvideWithError caches nothing but a value that it returns without an error: what a key holds
    -- afterwards is that value, at the key that was asked for, or is what another key held before. So
    -- if it returns an error, the key that was asked for holds nothing.
    pub provide_with_error_caches :
        ⦃e : Comparable K⦄
        → (c : Cache C) (k j : K) (p : P) (w : T)
        → cached (provide_with_error b is_zero zero_value c k provider p).1 j ≡ some w
        → ((k ≡ j) × ((provide_with_error b is_zero zero_value c k provider p).0 ≡ (w, none)))
          ⊎ ((k ≢ j) × (cached c j ≡ some w))
    unfolding provide_with_error
    provide_with_error_caches c k j p w h =
        elim (provide_caches (with_err b is_zero zero_value provider) c k j (p, none) w h) [
          | inl (same, e) ↦ inl (same, rw e refl)
          | inr other ↦ inr other
        ]
