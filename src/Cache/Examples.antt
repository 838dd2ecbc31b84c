-- ===== src/Cache/Examples.antt =====
-- Runs of the cache of pkg/cache on a table that expires nothing by itself.
use gosoline.Prelude.{
  ℕ, zero, suc, ◌≡◌, ◌≢◌, ◌⊎◌, refl, ◌∙◌, sym, inl, inr, Bool, false, Option, none, some, List, [],
  ◌∷◌, eqb, lookup, assign, remove_key, lookup-remove_key, is_some, beq_refl, Comparable,
  nat_comparable,
}
use gosoline.Cache.{
  Item, Base, BaseLaws, Cache, live, get, provide_after, provide, finish_provide, store_new, set_x,
  provide_with_error,
}
use gosoline.Cache.Provide.{cached, provide_with_error_caches}
use gosoline.Kvstore.Examples.Table.{assign_adds, assign_replaces, remove_keeps}

abbrev item_of : Option ℕ → Option (Item ℕ)
item_of none = none
item_of (some v) = some (record { value = v; expired = false })

live-item_of : (o : Option ℕ) → live (item_of o) ≡ o
live-item_of none = refl
live-item_of (some v) = refl

module _ {K : Type 0} ⦃e : Comparable K⦄ where
  abbrev pub base : Base (List (K × ℕ)) K ℕ
  base = record {
    get = λ c k. (item_of (lookup k c), c);
    set = λ c k v ttl. assign k v c;
    delete = λ c k. (is_some (lookup k c), remove_key k c);
    expire_item = λ c k. remove_key k c;
  }

  pub base_laws : BaseLaws base
  base_laws = record {
    get_frame = λ c k j v h. h;
    set_adds = λ c k j v w ttl h.
        let old : lookup j (assign k v c) ≡ some w =
          sym (live-item_of (lookup j (assign k v c))) ∙ h in
        elim (assign_adds c k j v w old) [
          | inl p ↦ inl p
          | inr q ↦ inr (live-item_of (lookup j c) ∙ q)
        ];
    set_replaces =
        λ c k v w ttl h. assign_replaces c k v w (sym (live-item_of (lookup k (assign k v c))) ∙ h);
    expire_expires = λ c k.
        live-item_of (lookup k (remove_key k c)) ∙ lookup-remove_key k k c ∙ rw (beq_refl k) refl;
    expire_frame = λ c k j v h.
        live-item_of (lookup j c)
        ∙ remove_keeps c k j v (sym (live-item_of (lookup j (remove_key k c))) ∙ h);
  }

abbrev warm : Cache (List (ℕ × ℕ))
warm = record { base = (1, 10) ∷ []; ttl = 60; not_found_ttl = 0 }

abbrev is_zero : ℕ → Bool
is_zero n = eqb n 0

-- A provider that counts its calls, and fails at the first one.
abbrev provider : ℕ → (ℕ × Option ℕ) × ℕ
provider zero = ((20, some 500), 1)
provider (suc calls) = ((20, none), suc (suc calls))

-- A key that is not cached.
abbrev asked : ℕ
asked = 2

provide_with_error_caches_example :
    ((asked ≡ asked) × ((provide_with_error base is_zero 0 warm asked provider 1).0 ≡ (20, none)))
    ⊎ ((asked ≢ asked) × (cached base is_zero base_laws warm asked ≡ some 20))
unfolding provide_with_error provide provide_after finish_provide store_new set_x get
provide_with_error_caches_example =
    provide_with_error_caches base is_zero base_laws 0 provider warm asked asked 1 20 refl

failed_after : (provide_with_error base is_zero 0 warm 2 provider 0).0 ≡ (0, some 500)
unfolding provide_with_error provide provide_after finish_provide get
failed_after = refl

hit_after : (provide_with_error base is_zero 0 warm 1 provider 0).0 ≡ (10, none)
unfolding provide_with_error provide provide_after get
hit_after = refl
