-- ===== src/Kvstore/Stores/InMemory/Layer.antt =====
-- The store of pkg/kvstore/in_memory.go, with its batches, keeps what a layer of a chain promises: it may be
-- any layer but the last, as its cache forgets.
use Prim.Native.String.{String}
use gosoline.Prelude.{
  ◌≡◌, refl, sym, ◌⊎◌, inl, inr, Bool, Option, none, some, List, [], ◌∷◌, ◌++◌, arith, Bool-cases,
  Option-cases, elem, assign, Comparable,
}
use gosoline.Cache.{Base, BaseLaws, live}
use gosoline.Cache
use gosoline.Kvstore.Store.{Laws, Entry, failed}
use gosoline.Kvstore.Batching.Reads.{
  Reads, Reads-nothing, Reads-failed, Reads-missed, Reads-read, get_batch-Reads,
}
use gosoline.Kvstore.Stores.InMemory
use gosoline.Kvstore.Stores.InMemory.{InMemory, in_memory_store}
use gosoline.Kvstore.Stores.InMemory.Keys.{
  view, contains_sound, contains_frame, get_found, get_frame, put_adds, put_replaces,
  delete_removes, delete_frame,
}

module _ {C K V : Type 0} ⦃e : Comparable K⦄ (b : Base C String V) (laws : BaseLaws b)
    (is_zero : V → Bool) (zero_value : V) (cast : K → Option String) (of_string : String → K)
    (settable : Bool) (cast_of_string : (t : String) → cast (of_string t) ≡ some t)
    (cast_injective : (k j : K) (t : String) → cast k ≡ some t → cast j ≡ some t → k ≡ j) where
  abbrev looks : InMemory C → K → Option V
  looks s k =
      view b laws is_zero zero_value cast of_string settable cast_of_string cast_injective s k

  get-fine :
      (s : InMemory C) (k : K) (t : String)
      → cast k ≡ some t
      → (InMemory.get b is_zero zero_value cast of_string settable s k zero_value).err ≡ none
  unfolding InMemory.get InMemory.finish_get Cache.get
  get-fine s k t good = ground arith

  get_chunk_from-Reads :
      (missing : List K) (s : InMemory C) (m : List (K × V)) (ks : List K)
      → Reads
          (view b laws is_zero zero_value cast of_string settable cast_of_string cast_injective)
          s
          m
          missing
          ks
          (InMemory.get_chunk_from b is_zero zero_value cast of_string settable missing s m ks)
  unfolding InMemory.get_chunk_from view
  get_chunk_from-Reads missing s m [] =
      Reads-nothing
        (view b laws is_zero zero_value cast of_string settable cast_of_string cast_injective) s m
        missing
  get_chunk_from-Reads missing s m (k ∷ ks) = elim (Option-cases (cast k)) [
    | inl bad ↦
        rw (bad, InMemory.get_chunk_from)
          (Reads-failed
            (view b laws is_zero zero_value cast of_string settable cast_of_string cast_injective) s
            s m missing (k ∷ ks) [] failed (λ j v h. h))
    | inr (t, good) ↦
        let r = InMemory.get b is_zero zero_value cast of_string settable s k zero_value in
        let same : of_string t ≡ k = cast_injective (of_string t) k t (cast_of_string t) good in
        let fine : r.err ≡ none = get-fine s k t good in
        elim (Bool-cases r.exists) [
          | inl found ↦
              let frame =
                get_frame b laws is_zero zero_value cast of_string settable cast_of_string
                  cast_injective s k in
              elim (Bool-cases settable) [
                | inr not_settable ↦
                    rw (good, fine, found, not_settable, InMemory.get_chunk_from)
                      (Reads-failed looks s r.store m missing (k ∷ ks) [] _
                        (λ j v h. frame j zero_value v h))
                | inl can ↦
                    rw (good, fine, found, can, InMemory.get_chunk_from, same)
                      (Reads-read looks s r.store m missing k r.value ks _
                        (λ j v h. frame j zero_value v h)
                        (get_found b laws is_zero zero_value cast of_string settable cast_of_string
                          cast_injective s k zero_value found)
                        (get_chunk_from-Reads missing r.store (assign k r.value m) ks))
              ]
          | inr gone ↦
              rw (good, fine, gone, InMemory.get_chunk_from, same)
                (Reads-missed
                  (view b laws is_zero zero_value cast of_string settable cast_of_string
                    cast_injective)
                  s r.store m missing k ks _
                  (λ j v h.
                    get_frame b laws is_zero zero_value cast of_string settable cast_of_string
                      cast_injective s k j zero_value v h)
                  (get_chunk_from-Reads (missing ++ k ∷ []) r.store m ks))
        ]
  ]

  put_entry :
      (s : InMemory C) (k j : K) (w v : V) (m : List (K × V))
      → looks (InMemory.put b is_zero zero_value cast of_string settable s k w).store j ≡ some v
      → Entry j v ((k, w) ∷ m) ⊎ (looks s j ≡ some v)
  put_entry s k j w v m now =
      elim (put_adds b laws is_zero zero_value cast of_string settable cast_of_string cast_injective
        s k j w v now) [ inl (same, kept) ↦ inl (inl (same, sym kept)) | inr old ↦ inr old ]

  put_batch_adds :
      (s : InMemory C) (m : List (K × V)) (j : K) (v : V)
      → looks (InMemory.put_batch b is_zero zero_value cast of_string settable s m).store j ≡ some v
      → Entry j v m ⊎ (looks s j ≡ some v)
  unfolding InMemory.put_batch
  put_batch_adds s [] j v h = inr h
  put_batch_adds s ((k, w) ∷ m) j v h =
      let r = InMemory.put b is_zero zero_value cast of_string settable s k w in
      elim (Option-cases r.err) [
        | inr (x, bad) ↦ put_entry s k j w v m (rw (bad, InMemory.put_batch) at h)
        | inl fine ↦ elim (put_batch_adds r.store m j v (rw (fine, InMemory.put_batch) at h)) [
          | inl new ↦ inl (inr new)
          | inr now ↦ put_entry s k j w v m now
        ]
      ]

  get_batch_lem :
      (s : InMemory C) (ks : List K) (m : List (K × V))
      → Reads looks s m [] ks
          (InMemory.get_batch b is_zero zero_value cast of_string settable s ks m)
  unfolding InMemory.get_batch InMemory.get_chunk
  get_batch_lem s ks m =
      get_batch-Reads cast cast_injective looks
        (InMemory.get_chunk b is_zero zero_value cast of_string settable)
        (λ t n js. get_chunk_from-Reads [] t n js) s.batch_size s ks m

  unfoldable in_memory_laws : Laws (in_memory_store b is_zero zero_value cast of_string settable)
  in_memory_laws = record {
    view = looks;
    Durable = λ s. ⊥;
    contains_sound = λ s k h.
        contains_sound b laws is_zero zero_value cast of_string settable cast_of_string
          cast_injective s k h;
    contains_frame = λ s k j v h.
        contains_frame b laws is_zero zero_value cast of_string settable cast_of_string
          cast_injective s k j v h;
    get_found = λ s k u h.
        get_found b laws is_zero zero_value cast of_string settable cast_of_string cast_injective s
          k u h;
    get_missing = λ s k u d. absurd d;
    get_frame = λ s k j u v h.
        get_frame b laws is_zero zero_value cast of_string settable cast_of_string cast_injective s
          k j u v h;
    get_durable = λ s k u d. absurd d;
    put_adds = λ s k j v w h.
        put_adds b laws is_zero zero_value cast of_string settable cast_of_string cast_injective s k
          j v w h;
    put_replaces = λ s k v w q h.
        put_replaces b laws is_zero zero_value cast of_string settable cast_of_string cast_injective
          s k v w q h;
    put_durable = λ s k v d. absurd d;
    delete_removes = λ s k q.
        delete_removes b laws is_zero zero_value cast of_string settable cast_of_string
          cast_injective s k q;
    delete_frame = λ s k j v h.
        delete_frame b laws is_zero zero_value cast of_string settable cast_of_string cast_injective
          s k j v h;
    delete_durable = λ s k d. absurd d;
    get_batch_sound = λ s ks m j v h. (get_batch_lem s ks m).sound j v h;
    get_batch_keeps = λ s ks m j h. (get_batch_lem s ks m).keeps j h;
    get_batch_missing = λ s ks m d. absurd d;
    get_batch_complete = λ s ks m j q h.
        elim (Bool-cases (
          elem j
            (InMemory.get_batch b is_zero zero_value cast of_string settable s ks m).missing)) [
              | inl gone ↦ inl gone
              | inr read ↦ inr (rw read at ((get_batch_lem s ks m).complete j q h))
            ];
    get_batch_frame = λ s ks m j v h. (get_batch_lem s ks m).frame j v h;
    get_batch_durable = λ s ks m d. absurd d;
    put_batch_adds = λ s m j v h. put_batch_adds s m j v h;
  }

  -- For keys of one type whose texts (CastKeyToString) tell them apart and read back as the keys, as
  -- those of strings do, and over a cache that makes no item up (BaseLaws): the in-memory store refines
  -- a layer of a chain, under which what it holds at a key is what its cache has at the text of the key
  -- and has not expired. All laws of a layer that may forget hold, for single keys and for batches in
  -- chunks of any size, whether or not the result map takes strings as keys.
  pub in_memory_refines :
      (l : Laws (in_memory_store b is_zero zero_value cast of_string settable)) × ((s : InMemory C)
          (k : K) (t : String)
        → cast k ≡ some t
        → l.view s k ≡ live (b.get s.cache.base t).0)
  unfolding view in_memory_laws
  in_memory_refines = (in_memory_laws, λ s k t good. rw good refl)
