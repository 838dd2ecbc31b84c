-- ===== src/Kvstore/Examples/Table.antt =====
-- A store that is a table in memory and never fails, to run the stores of pkg/kvstore on.
use mathlib.Core.Bool.{true≢false}
use gosoline.Prelude.{
  ◌≡◌, ◌⊎◌, refl, sym, ap, ◌∙◌, inl, inr, true, false, Option, none, some, List, [], ◌∷◌, arith,
  elem, lookup, assign, remove_key, lookup-assign, lookup-remove_key, is_some, All, Comparable,
  ◌==◌, Bool-cases, Option-cases, beq_refl, beq_eq, beq_ne,
}
use gosoline.Kvstore.Store.{KvStore, Laws, Batch, Entry}

abbrev or_value : {V : Type 0} → Option V → V → V
or_value none b = b
or_value (some v) b = v

module _ {K V : Type 0} ⦃e : Comparable K⦄ where
  abbrev add_missing : K → Batch (List (K × V)) K V → Batch (List (K × V)) K V
  add_missing k r = record r { missing = k ∷ r.missing }

  abbrev read_next : Option V → K → Batch (List (K × V)) K V → Batch (List (K × V)) K V
  read_next none k r = record r { missing = k ∷ r.missing }
  read_next (some v) k r = record r { values = assign k v r.values }

  abbrev read_all : List (K × V) → List K → List (K × V) → Batch (List (K × V)) K V
  read_all s [] m = record { missing = []; values = m; err = none; store = s }
  read_all s (k ∷ ks) m = read_next (lookup k s) k (read_all s ks m)

  abbrev write_all : List (K × V) → List (K × V) → List (K × V)
  write_all s [] = s
  write_all s ((k, v) ∷ m) = assign k v (write_all s m)

  abbrev delete_all : List (K × V) → List K → List (K × V)
  delete_all s [] = s
  delete_all s (k ∷ ks) = remove_key k (delete_all s ks)

module _ {K V : Type 0} ⦃e : Comparable K⦄ (zero_value : V) where
  abbrev pub table : KvStore (List (K × V)) K V
  table = record {
    contains =
        λ s k. record { exists = is_some (lookup k s); value = zero_value; err = none; store = s };
    get = λ s k b. record {
      exists = is_some (lookup k s);
      value = or_value (lookup k s) b;
      err = none;
      store = s;
    };
    get_batch = read_all;
    put = λ s k v. record { err = none; store = assign k v s };
    put_batch = λ s m. record { err = none; store = write_all s m };
    delete = λ s k. record { err = none; store = remove_key k s };
    delete_batch = λ s ks. record { err = none; store = delete_all s ks };
  }

module _ {K V : Type 0} ⦃e : Comparable K⦄ where
  pub read_all_sound :
      (s : List (K × V)) (ks : List K) (m : List (K × V)) (j : K) (v : V)
      → lookup j (read_all s ks m).values ≡ some v
      → (lookup j m ≡ some v) ⊎ (lookup j s ≡ some v)
  read_all_sound s [] m j v h = inl h
  read_all_sound s (k ∷ ks) m j v h = elim (Option-cases (lookup k s)) [
    | inl p ↦ read_all_sound s ks m j v (rw p at h)
    | inr (w, p) ↦ elim (Bool-cases (k == j)) [
      | inl q ↦ inr (
          rw (sym (beq_eq k j q))
            (ground (arith, p, q, h, lookup-assign j k w (read_all s ks m).values)))
      | inr q ↦
          read_all_sound s ks m j v
            (ground (arith, p, q, h, lookup-assign j k w (read_all s ks m).values))
    ]
  ]

  pub read_all_store :
      (s : List (K × V)) (ks : List K) (m : List (K × V)) → (read_all s ks m).store ≡ s
  read_all_store s [] m = refl
  read_all_store s (k ∷ ks) m = elim (Option-cases (lookup k s)) [
    | inl p ↦ rw p (read_all_store s ks m)
    | inr (v, p) ↦ rw p (read_all_store s ks m)
  ]

  pub read_all_keeps :
      (s : List (K × V)) (ks : List K) (m : List (K × V)) (j : K)
      → is_some (lookup j m) ≡ true
      → is_some (lookup j (read_all s ks m).values) ≡ true
  read_all_keeps s [] m j h = h
  read_all_keeps s (k ∷ ks) m j h = elim (Option-cases (lookup k s)) [
    | inl p ↦ rw p (read_all_keeps s ks m j h)
    | inr (v, p) ↦
        rw p
          (ground (arith, lookup-assign j k v (read_all s ks m).values, read_all_keeps s ks m j h))
  ]

  pub read_all_missing :
      (s : List (K × V)) (ks : List K) (m : List (K × V))
      → All (λ j. lookup j s ≡ none) (read_all s ks m).missing
  read_all_missing s [] m = tt
  read_all_missing s (k ∷ ks) m = elim (Option-cases (lookup k s)) [
    | inl p ↦ rw p (p, read_all_missing s ks m)
    | inr (v, p) ↦ rw p (read_all_missing s ks m)
  ]

  pub read_all_complete :
      (s : List (K × V)) (ks : List K) (m : List (K × V)) (j : K)
      → elem j ks ≡ true
      → (elem j (read_all s ks m).missing ≡ true)
        ⊎ (is_some (lookup j (read_all s ks m).values) ≡ true)
  read_all_complete s [] m j h = absurd (true≢false (sym h))
  read_all_complete s (k ∷ ks) m j h = elim (Option-cases (lookup k s)) [
    | inl p ↦ rw p (ground (arith, read_all_complete s ks m j, h))
    | inr (v, p) ↦ rw p (
        ground (arith, read_all_complete s ks m j, h, lookup-assign j k v (read_all s ks m).values))
  ]

  pub write_all_adds :
      (s m : List (K × V)) (j : K) (v : V)
      → lookup j (write_all s m) ≡ some v
      → Entry j v m ⊎ (lookup j s ≡ some v)
  write_all_adds s [] j v h = inr h
  write_all_adds s ((k, w) ∷ m) j v h = elim (Bool-cases (k == j)) [
    | inl same ↦
        inl (inl (beq_eq k j same, cc (rw same at (sym (lookup-assign j k w (write_all s m)) ∙ h))))
    | inr other ↦
        elim (write_all_adds s m j v
          (rw other at (sym (lookup-assign j k w (write_all s m)) ∙ h))) [
            | inl new ↦ inl (inr new)
            | inr old ↦ inr old
          ]
  ]

module _ {K V : Type 0} ⦃e : Comparable K⦄ where
  pub found :
      (s : List (K × V)) (k : K) → is_some (lookup k s) ≡ true → (v : V) × (lookup k s ≡ some v)
  found s k h = elim (Option-cases (lookup k s)) [
    | inl p ↦ absurd (ground (arith, h, p))
    | inr q ↦ q
  ]

  pub found_value :
      (s : List (K × V)) (k : K) (b : V)
      → is_some (lookup k s) ≡ true
      → lookup k s ≡ some (or_value (lookup k s) b)
  found_value s k b h = ground (arith, h)

  pub not_found : (s : List (K × V)) (k : K) → is_some (lookup k s) ≡ false → lookup k s ≡ none
  not_found s k h = ground (arith, h)

  pub assign_adds :
      (s : List (K × V)) (k j : K) (v w : V)
      → lookup j (assign k v s) ≡ some w
      → ((k ≡ j) × (w ≡ v)) ⊎ (lookup j s ≡ some w)
  assign_adds s k j v w h = ground (arith, lookup-assign j k v s, h, beq_eq k j)

  pub assign_here : (s : List (K × V)) (k : K) (v : V) → lookup k (assign k v s) ≡ some v
  assign_here s k v = lookup-assign k k v s ∙ rw (beq_refl k) refl

  pub assign_replaces :
      (s : List (K × V)) (k : K) (v w : V) → lookup k (assign k v s) ≡ some w → w ≡ v
  assign_replaces s k v w h = ground (arith, assign_here s k v, h)

  pub remove_keeps :
      (s : List (K × V)) (k j : K) (v : V)
      → lookup j (remove_key k s) ≡ some v
      → lookup j s ≡ some v
  remove_keeps s k j v h = ground (arith, lookup-remove_key j k s, h)

module _ {K V : Type 0} ⦃e : Comparable K⦄ (zero_value : V) where
  abbrev pub table_laws : Laws {S = List (K × V)} {K = K} {V = V} (table zero_value)
  table_laws = record {
    view = λ s k. lookup k s;
    Durable = λ s. Unit;
    contains_sound = found;
    contains_frame = λ s k j v h. h;
    get_found = found_value;
    get_missing = λ s k b d h q. not_found s k h;
    get_frame = λ s k j b v h. h;
    get_durable = λ s k b d. (tt, λ j. refl);
    put_adds = assign_adds;
    put_replaces = λ s k v w q h. assign_replaces s k v w h;
    put_durable = λ s k v d.
        (tt, λ q. assign_here s k v, λ j n. lookup-assign j k v s ∙ rw (beq_ne k j n) refl);
    delete_removes = λ s k q. lookup-remove_key k k s ∙ rw (beq_refl k) refl;
    delete_frame = remove_keeps;
    delete_durable = λ s k d. (tt, λ j n. lookup-remove_key j k s ∙ rw (beq_ne k j n) refl);
    get_batch_sound = read_all_sound;
    get_batch_keeps = read_all_keeps;
    get_batch_missing = λ s ks m d q. read_all_missing s ks m;
    get_batch_complete = λ s ks m j q h. read_all_complete s ks m j h;
    get_batch_frame = λ s ks m j v h. ap (lookup j) (sym (read_all_store s ks m)) ∙ h;
    get_batch_durable = λ s ks m d. (tt, λ j. ap (lookup j) (read_all_store s ks m));
    put_batch_adds = write_all_adds;
  }
