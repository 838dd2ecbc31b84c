-- ===== src/Kvstore/Stores/InMemory/Keys.antt =====
-- The operations of pkg/kvstore/in_memory.go on one key, next to what a layer of a chain promises of them.
use Prim.Native.String.{String}
use gosoline.Prelude.{
  ◌≡◌, ◌⊎◌, inl, inr, Bool, true, Option, none, some, arith, Option-cases, Comparable,
}
use gosoline.Cache.{Base, BaseLaws, Cache, live}
use gosoline.Cache
use gosoline.Kvstore.Stores.InMemory
use gosoline.Kvstore.Stores.InMemory.{InMemory}

module _ {C K V : Type 0} ⦃e : Comparable K⦄ (b : Base C String V) (laws : BaseLaws b)
    (is_zero : V → Bool) (zero_value : V) (cast : K → Option String) (of_string : String → K)
    (settable : Bool) (cast_of_string : (t : String) → cast (of_string t) ≡ some t)
    (cast_injective : (k j : K) (t : String) → cast k ≡ some t → cast j ≡ some t → k ≡ j) where
  -- What a read of the key finds: nothing, at a key that has no text.
  abbrev view_text : InMemory C → Option String → Option V
  view_text s none = none
  view_text s (some t) = live (b.get s.cache.base t).0

  unfoldable pub view : InMemory C → K → Option V
  view s k = view_text s (cast k)

  pub contains_sound :
      (s : InMemory C) (k : K)
      → (InMemory.contains b is_zero zero_value cast of_string settable s k).exists ≡ true
      → (v : V) × (view s k ≡ some v)
  unfolding view InMemory.contains Cache.contains
  contains_sound s k h = elim (Option-cases (view_text s (cast k))) [
    | inr found ↦ found
    | inl gone ↦
        absurd
          (elim (Option-cases (cast k)) [ inl bad ↦ ground arith | inr (t, fine) ↦ ground arith ])
  ]

  pub contains_frame :
      (s : InMemory C) (k j : K) (v : V)
      → view (InMemory.contains b is_zero zero_value cast of_string settable s k).store j ≡ some v
      → view s j ≡ some v
  unfolding view InMemory.contains Cache.contains
  contains_frame s k j v h = elim (Option-cases (cast k)) [
    | inl bad ↦ ground arith
    | inr (t, fine) ↦ elim (Option-cases (cast j)) [
      | inl bad ↦ ground arith
      | inr (u, good) ↦ ground (arith, laws.get_frame s.cache.base t u v)
    ]
  ]

  pub get_found :
      (s : InMemory C) (k : K) (v : V)
      → (InMemory.get b is_zero zero_value cast of_string settable s k v).exists ≡ true
      → view s k ≡ some (InMemory.get b is_zero zero_value cast of_string settable s k v).value
  unfolding view InMemory.get Cache.get
  get_found s k v h = ground arith

  pub get_frame :
      (s : InMemory C) (k j : K) (u v : V)
      → view (InMemory.get b is_zero zero_value cast of_string settable s k u).store j ≡ some v
      → view s j ≡ some v
  unfolding view InMemory.get Cache.get
  get_frame s k j u v h = elim (Option-cases (cast k)) [
    | inl bad ↦ ground arith
    | inr (t, fine) ↦ elim (Option-cases (cast j)) [
      | inl bad ↦ ground arith
      | inr (x, good) ↦ ground (arith, laws.get_frame s.cache.base t x v)
    ]
  ]

  pub put_adds :
      (s : InMemory C) (k j : K) (v w : V)
      → view (InMemory.put b is_zero zero_value cast of_string settable s k v).store j ≡ some w
      → ((k ≡ j) × (w ≡ v)) ⊎ (view s j ≡ some w)
  unfolding view InMemory.put Cache.set
  put_adds s k j v w h = elim (Option-cases (cast k)) [
    | inl bad ↦ ground arith
    | inr (t, fine) ↦ elim (Option-cases (cast j)) [
      | inl bad ↦ ground arith
      | inr (x, good) ↦
          ground (arith, laws.set_adds s.cache.base t x v w s.cache.ttl, cast_injective k j t)
    ]
  ]

  pub put_replaces :
      (s : InMemory C) (k : K) (v w : V)
      → (InMemory.put b is_zero zero_value cast of_string settable s k v).err ≡ none
      → view (InMemory.put b is_zero zero_value cast of_string settable s k v).store k ≡ some w
      → w ≡ v
  unfolding view InMemory.put Cache.set
  put_replaces s k v w q h = elim (Option-cases (cast k)) [
    | inl bad ↦ ground arith
    | inr (t, fine) ↦ ground (arith, laws.set_replaces s.cache.base t v w s.cache.ttl)
  ]

  pub delete_removes :
      (s : InMemory C) (k : K)
      → (InMemory.delete b is_zero zero_value cast of_string settable s k).err ≡ none
      → view (InMemory.delete b is_zero zero_value cast of_string settable s k).store k ≡ none
  unfolding view InMemory.delete Cache.expire
  delete_removes s k q = elim (Option-cases (cast k)) [
    | inl bad ↦ ground arith
    | inr (t, fine) ↦ rw (fine, InMemory.delete) (expired t)
  ]
    where
      expired : (t : String) → live (b.get (Cache.expire b is_zero s.cache t).1.base t).0 ≡ none
      expired t = elim (Option-cases (b.get s.cache.base t).0) [
        | inl gone ↦ rw gone (elim (Option-cases (live (b.get (b.get s.cache.base t).1 t).0)) [
          | inl still ↦ still
          | inr (v, back) ↦ cc (gone, laws.get_frame s.cache.base t t v back)
        ])
        | inr (item, found) ↦ rw found (laws.expire_expires (b.get s.cache.base t).1 t)
      ]

  pub delete_frame :
      (s : InMemory C) (k j : K) (v : V)
      → view (InMemory.delete b is_zero zero_value cast of_string settable s k).store j ≡ some v
      → view s j ≡ some v
  unfolding view InMemory.delete Cache.expire
  delete_frame s k j v h = elim (Option-cases (cast k)) [
    | inl bad ↦ ground arith
    | inr (t, fine) ↦ elim (Option-cases (cast j)) [
      | inl bad ↦ ground arith
      | inr (x, good) ↦ ground (
        arith,
        laws.get_frame s.cache.base t x v,
        laws.expire_frame (b.get s.cache.base t).1 t x v,
      )
    ]
  ]
