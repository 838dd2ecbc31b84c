-- ===== src/Kvstore/Examples.antt =====
-- Runs of the chain of stores of pkg/kvstore on tables: two layers over one durable one, and a cache of
-- a key that no layer has.
pub mod Table
use Prim.Native.String.{String}
use gosoline.Prelude.{
  zero, suc, ℕ, ◌+◌, ◌≤◌, ◌<◌, ◌≡◌, ◌⊎◌, refl, Option, none, some, List, [], ◌∷◌, arith, All,
  lookup, string_comparable, nat_comparable,
}
use gosoline.Kvstore.Store.{KvStore, Laws, Batch, failed}
use gosoline.Kvstore.Batching
use gosoline.Kvstore.Chain.{Chain, get, put_layers, put, delete_layers, delete}
use gosoline.Kvstore.Chain.Coherence.{IsCoherent, Answers, get-IsCoherent}
use gosoline.Kvstore.Chain.Writes.{update, erase, put-IsCoherent, delete-IsCoherent}
use gosoline.Kvstore.Chain.Batch.{
  after_fetch, fetch, finish_get_batch, propagate_batch, store_missing_keys, found_of,
  missing_values, refill_layer, get_batch,
}
use gosoline.Kvstore.Chain.Batch.Fetches.{TrueEntries}
use gosoline.Kvstore.Chain.Batch.Reads.{get_batch-IsCoherent}
use gosoline.Kvstore.Chain.Batch.Complete.{Accounted, get_batch_complete, get_batch_swallows}
use gosoline.Kvstore.Stores.Metered.{Metered, metered}
use gosoline.Kvstore.Stores.Metered.Swallow.{chain_put_swallows}
use gosoline.Kvstore.Examples.Table.{table, table_laws}

abbrev Entries : Type 0
Entries = List (ℕ × ℕ)

abbrev ops : KvStore Entries ℕ ℕ
ops = table 0

abbrev laws : Laws ops
laws = table_laws 0

abbrev upper : Entries
upper = (1, 10) ∷ []

abbrev base : Entries
base = (1, 10) ∷ (2, 20) ∷ []

abbrev two_layers : Chain Entries
two_layers = record { layers = upper ∷ base ∷ []; missing_cache = (9, 0) ∷ [] }

abbrev truth : ℕ → Option ℕ
truth k = lookup k base

two_layers-IsCoherent : IsCoherent ops laws truth two_layers
two_layers-IsCoherent = record {
  layered = (λ k v h. ground (arith, h), (tt, λ k. refl));
  absent = λ k v h. ground (arith, h);
}

get-IsCoherent_example :
    IsCoherent ops laws truth (get ops 0 two_layers 2 0).chain
    × ((get ops 0 two_layers 2 0).err ≡ none
        → Answers ops laws truth 2
            (get ops 0 two_layers 2 0).exists
            (get ops 0 two_layers 2 0).value)
get-IsCoherent_example = get-IsCoherent ops laws 0 truth two_layers 2 0 two_layers-IsCoherent

put_fine : (put ops 0 two_layers 3 30).err ≡ none
unfolding put put_layers
put_fine = refl

put_quiet : (put ops 0 two_layers 3 30).warnings ≡ 0
unfolding put put_layers
put_quiet = refl

put-IsCoherent_example : IsCoherent ops laws (update truth 3 30) (put ops 0 two_layers 3 30).chain
put-IsCoherent_example =
    put-IsCoherent ops laws 0 truth two_layers 3 30 two_layers-IsCoherent put_fine put_quiet

delete_fine : (delete ops 0 two_layers 1).err ≡ none
unfolding delete delete_layers
delete_fine = refl

delete-IsCoherent_example : IsCoherent ops laws (erase truth 1) (delete ops 0 two_layers 1).chain
delete-IsCoherent_example =
    delete-IsCoherent ops laws 0 truth two_layers 1 two_layers-IsCoherent delete_fine

get_batch-IsCoherent_example :
    IsCoherent ops laws truth (get_batch ops 0 two_layers (2 ∷ 9 ∷ 5 ∷ []) []).chain
    × TrueEntries truth (get_batch ops 0 two_layers (2 ∷ 9 ∷ 5 ∷ []) []).values
    × ((get_batch ops 0 two_layers (2 ∷ 9 ∷ 5 ∷ []) []).err ≡ none
        → All (λ k. truth k ≡ none) (get_batch ops 0 two_layers (2 ∷ 9 ∷ 5 ∷ []) []).missing)
get_batch-IsCoherent_example =
    get_batch-IsCoherent ops laws 0 truth two_layers (2 ∷ 9 ∷ 5 ∷ []) [] two_layers-IsCoherent
      (λ k v h. ground (arith, h))

get_batch_fine : (get_batch ops 0 two_layers (2 ∷ 9 ∷ 5 ∷ []) []).err ≡ none
unfolding get_batch fetch after_fetch finish_get_batch propagate_batch store_missing_keys found_of
    missing_values refill_layer
get_batch_fine = refl

get_batch_complete_example :
    Accounted ops laws 0
      (get_batch ops 0 two_layers (2 ∷ 9 ∷ 5 ∷ []) []).missing
      (get_batch ops 0 two_layers (2 ∷ 9 ∷ 5 ∷ []) []).values
      2
get_batch_complete_example =
    get_batch_complete ops laws 0 two_layers (2 ∷ 9 ∷ 5 ∷ []) [] 2 refl get_batch_fine refl

-- The key 0 has no text.
abbrev cast : ℕ → Option String
cast zero = none
cast (suc n) = some "text"

abbrev get_chunk : Entries → List (ℕ × ℕ) → List ℕ → Batch Entries ℕ ℕ
get_chunk s m chunk = ops.get_batch s chunk m

-- A store that reads a batch in chunks of one key.
abbrev in_chunks : KvStore Entries ℕ ℕ
in_chunks = record ops { get_batch = λ s ks m. Batching.get_batch get_chunk cast 1 s ks m }

get_batch_swallows_example :
    ((in_chunks.get_batch two_layers.missing_cache (2 ∷ 0 ∷ []) []).err ≡ some failed)
    × ((get_batch in_chunks 0 two_layers (2 ∷ 0 ∷ []) []).err ≡ none)
    × ((get_batch in_chunks 0 two_layers (2 ∷ 0 ∷ []) []).missing ≡ [])
    × ((get_batch in_chunks 0 two_layers (2 ∷ 0 ∷ []) []).values ≡ [])
    × ((get_batch in_chunks 0 two_layers (2 ∷ 0 ∷ []) []).chain.layers ≡ two_layers.layers)
get_batch_swallows_example =
    get_batch_swallows get_chunk cast 1 in_chunks 0 two_layers (2 ∷ 0 ∷ []) [] (λ us values. refl)
      refl

-- A store whose writes fail.
abbrev read_only : KvStore Entries ℕ ℕ
read_only = record ops { put = λ s k v. record { err = some failed; store = s } }

abbrev metered_chain : Chain (Metered Entries)
metered_chain = record {
  layers = record { inner = base; recorded = [] } ∷ [];
  missing_cache = record { inner = []; recorded = [] };
}

chain_put_swallows_example : (put (metered read_only) 0 metered_chain 3 30).err ≡ none
chain_put_swallows_example = chain_put_swallows read_only 0 metered_chain 3 30
