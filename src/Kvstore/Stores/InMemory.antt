-- ===== src/Kvstore/Stores/InMemory.antt =====
-- `InMemoryKvStore` of pkg/kvstore/in_memory.go, over the cache of pkg/cache/ccache.go.
pub mod Keys
pub mod Layer
mod Examples
use Prim.Native.String.{String}
use gosoline.Prelude.{
  ℕ, ◌+◌, Bool, true, false, Option, none, some, List, [], ◌∷◌, ◌++◌, Comparable, assign,
}
use gosoline.Cache.{Base, Cache}
use gosoline.Cache
use gosoline.Kvstore.Store.{KvStore, Read, Write, Batch, failed, wrapped}
use gosoline.Kvstore.Batching

-- `cache_size` counts the writes; the deletions that it is reduced by are told by ccache, in its
-- own time, and are not modelled.
pub record InMemory (C : Type 0) : Type 0 where
  pub cache : Cache C
  pub batch_size : ℕ
  pub cache_size : ℕ

-- A key is of Go's type `any`: `cast` is CastKeyToString, and `of_string` takes a string as a key.
-- `settable` is whether Set of the result map succeeds, which it does if its keys are strings.
-- The parameter `b` is the package ccache.
module _ {C K V : Type 0} ⦃e : Comparable K⦄ (b : Base C String V) (is_zero : V → Bool)
    (zero_value : V) (cast : K → Option String) (of_string : String → K) (settable : Bool) where
  unfoldable pub contains : InMemory C → K → Read (InMemory C) V
  contains s key = elim (cast key) [
    | none ↦ record { exists = false; value = zero_value; err = some failed; store = s }
    | some text ↦
        let (found, cache) = Cache.contains b is_zero s.cache text in
        record {
          exists = found;
          value = zero_value;
          err = none;
          store = record s { cache = cache };
        }
  ]

  -- what Get does with what the cache has
  unfoldable pub finish_get : InMemory C → V → Option V → Read (InMemory C) V
  finish_get s value none = record { exists = false; value = value; err = none; store = s }
  finish_get s value (some item) = record { exists = true; value = item; err = none; store = s }

  unfoldable pub get : InMemory C → K → V → Read (InMemory C) V
  unfolding finish_get
  get s key value = elim (cast key) [
    | none ↦ record { exists = false; value = value; err = some failed; store = s }
    | some text ↦
        let (item, cache) = Cache.get b is_zero s.cache text in
        finish_get (record s { cache = cache }) value item
  ]

  -- getChunk: `missing` is what the rounds so far found missing
  unfoldable get_chunk_from : List K → InMemory C → List (K × V) → List K → Batch (InMemory C) K V
  unfolding get
  get_chunk_from missing s values [] = record {
    missing = missing;
    values = values;
    err = none;
    store = s;
  }
  get_chunk_from missing s values (key ∷ keys) = elim (cast key) [
    | none ↦ record { missing = []; values = values; err = some failed; store = s }
    | some text ↦
        let r = get s key zero_value in
        elim r.err [
          | some x ↦ record {
            missing = [];
            values = values;
            err = some (wrapped x);
            store = r.store;
          }
          | none ↦ elim r.exists [
            | false ↦ get_chunk_from (missing ++ of_string text ∷ []) r.store values keys
            | true ↦ elim settable [
              | true ↦ get_chunk_from missing r.store (assign (of_string text) r.value values) keys
              | false ↦ record {
                missing = [];
                values = values;
                err = some (wrapped failed);
                store = r.store;
              }
            ]
          ]
        ]
  ]

  unfoldable get_chunk : InMemory C → List (K × V) → List K → Batch (InMemory C) K V
  unfolding get_chunk_from
  get_chunk s values keys = get_chunk_from [] s values keys

  unfoldable pub get_batch : InMemory C → List K → List (K × V) → Batch (InMemory C) K V
  unfolding get_chunk
  get_batch s keys values = Batching.get_batch get_chunk cast s.batch_size s keys values

  unfoldable pub put : InMemory C → K → V → Write (InMemory C)
  put s key value = elim (cast key) [
    | none ↦ record { err = some failed; store = s }
    | some text ↦ record {
      err = none;
      store = record s {
        cache = Cache.set b is_zero s.cache text value;
        cache_size = s.cache_size + 1;
      };
    }
  ]

  -- the loop ends at the first error; Go ranges over the map in any order
  unfoldable pub put_batch : InMemory C → List (K × V) → Write (InMemory C)
  put_batch s [] = record { err = none; store = s }
  put_batch s ((k, v) ∷ values) =
      let r = put s k v in
      elim r.err [
        | some x ↦ record { err = some (wrapped x); store = r.store }
        | none ↦ put_batch r.store values
      ]

  unfoldable pub delete : InMemory C → K → Write (InMemory C)
  delete s key = elim (cast key) [
    | none ↦ record { err = some failed; store = s }
    | some text ↦
        let (expired, cache) = Cache.expire b is_zero s.cache text in
        record { err = none; store = record s { cache = cache } }
  ]

  unfoldable pub delete_batch : InMemory C → List K → Write (InMemory C)
  delete_batch s [] = record { err = none; store = s }
  delete_batch s (k ∷ ks) =
      let r = delete s k in
      elim r.err [
        | some x ↦ record { err = some (wrapped x); store = r.store }
        | none ↦ delete_batch r.store ks
      ]

  abbrev pub in_memory_store : KvStore (InMemory C) K V
  in_memory_store = record {
    contains = contains;
    get = get;
    get_batch = get_batch;
    put = put;
    put_batch = put_batch;
    delete = delete;
    delete_batch = delete_batch;
  }
