-- ===== src/Kvstore/Batching.antt =====
-- `UniqKeys` of pkg/kvstore/uniq.go, and `keyChunks` and `getBatch` of pkg/kvstore/batch.go: how a
-- store reads a batch in chunks.
pub mod Chunks
pub mod Uniq
pub mod Reads
use Prim.Native.String.{String}
use gosoline.Prelude.{
  ℕ, zero, suc, ◌-◌, true, false, Option, none, some, List, [], ◌∷◌, ◌++◌, ltb, length, take, drop,
  elem, string_comparable, if◌then◌else◌,
}
use gosoline.Kvstore.Store.{Batch, failed, wrapped}

abbrev pub prepend : {K : Type 0} → K → Option (List K) → Option (List K)
prepend k none = none
prepend k (some rest) = some (k ∷ rest)

module _ {K : Type 0} (cast : K → Option String) where
  -- the loop of UniqKeys: `none` is its error, `seen` the set of the texts that were met
  unfoldable pub uniq_from : List String → List K → Option (List K)
  uniq_from seen [] = some []
  uniq_from seen (k ∷ ks) = elim (cast k) [
    | none ↦ none
    | some text ↦ elim (elem text seen) [
      | true ↦ uniq_from seen ks
      | false ↦ prepend k (uniq_from (text ∷ seen) ks)
    ]
  ]

  unfoldable pub uniq_keys : List K → Option (List K)
  unfolding uniq_from
  uniq_keys ks = uniq_from [] ks

-- The loop of keyChunks, on fuel: one chunk takes at least one key when `size` is not 0.
unfoldable pub key_chunks_from : {K : Type 0} → ℕ → List K → ℕ → List (List K)
key_chunks_from zero ks size = []
key_chunks_from (suc fuel) [] size = []
key_chunks_from (suc fuel) (k ∷ ks) size =
    take size (k ∷ ks) ∷ key_chunks_from fuel (drop size (k ∷ ks)) size

unfoldable pub key_chunks : {K : Type 0} → List K → ℕ → List (List K)
unfolding key_chunks_from
key_chunks ks size = key_chunks_from (length ks) ks size

-- `batchSize < 1` is reset to 1; a negative size is 0 here.
abbrev pub effective_size : ℕ → ℕ
effective_size batch_size = if ltb batch_size 1 then 1 else batch_size

module _ {S K V : Type 0} (get_chunk : S → List (K × V) → List K → Batch S K V) where
  -- the loop of getBatch over the chunks: on an error it returns all the keys
  unfoldable pub get_chunks : List K → List (List K) → List K → List (K × V) → S → Batch S K V
  get_chunks all [] missing values s = record {
    missing = missing;
    values = values;
    err = none;
    store = s;
  }
  get_chunks all (chunk ∷ chunks) missing values s =
      let r = get_chunk s values chunk in
      let later = get_chunks all chunks (missing ++ r.missing) r.values r.store in
      elim r.err [
        | some e ↦ record {
          missing = all;
          values = r.values;
          err = some (wrapped e);
          store = r.store;
        }
        | none ↦ later
      ]

  unfoldable pub get_batch : (K → Option String) → ℕ → S → List K → List (K × V) → Batch S K V
  unfolding get_chunks uniq_keys key_chunks
  get_batch cast batch_size s ks values = elim (uniq_keys cast ks) [
    | none ↦ record { missing = []; values = values; err = some failed; store = s }
    | some unique ↦ get_chunks unique (key_chunks unique (effective_size batch_size)) [] values s
  ]
