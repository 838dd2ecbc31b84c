-- ===== src/Kvstore/Chain/Batch.antt =====
-- The batch operations of `chainKvStore`, pkg/kvstore/chain.go.
pub mod Fetches
pub mod Reads
pub mod Complete
use gosoline.Prelude.{
  ℕ, suc, ◌+◌, Bool, true, false, ◌&&◌, Option, none, some, List, [], ◌∷◌, ◌++◌, is_some,
  Comparable, lookup, keys, if◌then◌else◌,
}
use gosoline.Kvstore.Store.{KvStore, Batch, Write, Error}
use gosoline.Kvstore.Chain.{Chain, WriteOutcome, warning, wrap, is_last}

-- `len(keys) == 0`
abbrev pub is_empty : {A : Type 0} → List A → Bool
is_empty [] = true
is_empty (x ∷ xs) = false

-- What `getFromChain` gives: `refill` has the keys that each layer read lacked, from the first.
pub record Fetch (S K V : Type 0) : Type 0 where
  pub layers : List S
  pub values : List (K × V)
  pub todo : List K
  pub refill : List (List K)
  pub found_in : ℕ
  pub err : Option Error
  pub warnings : ℕ

pub record BatchOutcome (S K V : Type 0) : Type 0 where
  pub missing : List K
  pub values : List (K × V)
  pub err : Option Error
  pub warnings : ℕ
  pub chain : Chain S

-- One round of the loop of `getFromChain`: `remaining` is `refill[i]` after the round.
unfoldable pub after_fetch :
    {S K V : Type 0} → Batch S K V → List K → List S → Fetch S K V → Fetch S K V
after_fetch r remaining rest later =
    if is_last rest && is_some r.err
    then record {
      layers = r.store ∷ rest;
      values = r.values;
      todo = [];
      refill = [];
      found_in = 0;
      err = wrap r.err;
      warnings = 0;
    }
    else if is_empty remaining
    then record {
      layers = r.store ∷ rest;
      values = r.values;
      todo = remaining;
      refill = remaining ∷ [];
      found_in = 0;
      err = none;
      warnings = warning r.err;
    }
    else record later {
      layers = r.store ∷ later.layers;
      refill = remaining ∷ later.refill;
      found_in = suc later.found_in;
      warnings = warning r.err + later.warnings;
    }

-- a layer that fails is taken to lack every key
abbrev pub remaining_of : {S K V : Type 0} → Batch S K V → List K → List K
remaining_of r todo = if is_some r.err then todo else r.missing

module _ {K V : Type 0} ⦃e : Comparable K⦄ where
  -- `missingInElement`: the entries of the result at the keys that a layer lacked
  unfoldable pub found_of : List K → List (K × V) → List (K × V)
  found_of [] values = []
  found_of (k ∷ ks) values =
      let rest = found_of ks values in
      elim (lookup k values) [ none ↦ rest | some v ↦ (k, v) ∷ rest ]

  -- `missingValues`
  unfoldable pub missing_values : V → List K → List (K × V)
  missing_values zero_value [] = []
  missing_values zero_value (k ∷ ks) = (k, zero_value) ∷ missing_values zero_value ks

module _ {S K V : Type 0} ⦃e : Comparable K⦄ (ops : KvStore S K V) (zero_value : V) where
  -- getFromChain
  unfoldable pub fetch : List S → List K → List (K × V) → Fetch S K V
  fetch [] todo values = record {
    layers = [];
    values = values;
    todo = todo;
    refill = [];
    found_in = 0;
    err = none;
    warnings = 0;
  }
  fetch (element ∷ rest) todo values =
      let r = ops.get_batch element todo values in
      let remaining = remaining_of r todo in
      let later = fetch rest remaining r.values in after_fetch r remaining rest later

  -- one layer of propagateToLowerCacheLevels
  unfoldable pub refill_layer : S → List K → List (K × V) → Write S
  refill_layer element lacked values =
      let found = found_of lacked values in
      if is_empty found then record { err = none; store = element } else ops.put_batch element found

  -- propagateToLowerCacheLevels: the layers below the index, and the warnings
  unfoldable pub propagate_batch : ℕ → List S → List (List K) → List (K × V) → List S × ℕ
  unfolding refill_layer
  propagate_batch (suc i) (element ∷ rest) (lacked ∷ refill) values =
      let (rest', warnings) = propagate_batch i rest refill values in
      let r = refill_layer element lacked values in (r.store ∷ rest', warning r.err + warnings)
  propagate_batch _ layers refill values = (layers, 0)

  -- storeMissingKeys
  unfoldable pub store_missing_keys : S → List K → Write S
  unfolding missing_values
  store_missing_keys missing_cache [] = record { err = none; store = missing_cache }
  store_missing_keys missing_cache (k ∷ ks) =
      ops.put_batch missing_cache (missing_values zero_value (k ∷ ks))

  -- GetBatch after the missing cache has answered
  unfoldable pub finish_get_batch : S → ℕ → List K → Fetch S K V → BatchOutcome S K V
  finish_get_batch missing_cache warnings cached_missing f =
      let (layers, more) = propagate_batch f.found_in f.layers f.refill f.values in
      let w = store_missing_keys missing_cache f.todo in
      if is_some f.err
      then record {
        missing = [];
        values = f.values;
        err = f.err;
        warnings = warnings + f.warnings;
        chain = record { layers = f.layers; missing_cache = missing_cache };
      }
      else record {
        missing = f.todo ++ cached_missing;
        values = f.values;
        err = none;
        warnings = warnings + f.warnings + more + warning w.err;
        chain = record { layers = layers; missing_cache = w.store };
      }

  -- GetBatch, with getKeysFromMissingCache
  unfoldable pub get_batch : Chain S → List K → List (K × V) → BatchOutcome S K V
  get_batch c todo values =
      let r = ops.get_batch c.missing_cache todo [] in
      if is_empty r.missing
      then record {
        missing = keys r.values;
        values = values;
        err = none;
        warnings = warning r.err;
        chain = record c { missing_cache = r.store };
      }
      else finish_get_batch r.store (warning r.err) (keys r.values)
          (fetch c.layers r.missing values)

  -- the first loop of `PutBatch`
  unfoldable put_batch_layers : List S → List (K × V) → List S × Option Error × ℕ
  put_batch_layers [] values = ([], none, 0)
  put_batch_layers (element ∷ rest) values =
      let r = ops.put_batch element values in
      let (rest', err, warnings) = put_batch_layers rest values in
      if is_last rest && is_some r.err
      then (r.store ∷ rest, wrap r.err, 0)
      else (r.store ∷ rest', err, warning r.err + warnings)

  -- the second loop of `PutBatch`
  unfoldable forget_missing : S → List K → S × ℕ
  forget_missing missing_cache [] = (missing_cache, 0)
  forget_missing missing_cache (k ∷ ks) =
      let r = ops.delete missing_cache k in
      let (store, warnings) = forget_missing r.store ks in (store, warning r.err + warnings)

  unfoldable put_batch : Chain S → List (K × V) → WriteOutcome S
  put_batch c values =
      let (layers, err, warnings) = put_batch_layers c.layers values in
      let (store, more) = forget_missing c.missing_cache (keys values) in
      if is_some err
      then record { err = err; warnings = warnings; chain = record c { layers = layers } }
      else record {
        err = none;
        warnings = warnings + more;
        chain = record { layers = layers; missing_cache = store };
      }

  -- the loop of `DeleteBatch`, which ends at the first error
  unfoldable delete_batch_layers : List S → List K → List S × Option Error
  delete_batch_layers [] ks = ([], none)
  delete_batch_layers (store ∷ rest) ks =
      let r = ops.delete_batch store ks in
      let (rest', err) = delete_batch_layers rest ks in
      if is_some r.err then (r.store ∷ rest, wrap r.err) else (r.store ∷ rest', err)

  unfoldable delete_batch : Chain S → List K → WriteOutcome S
  delete_batch c ks =
      let (layers, err) = delete_batch_layers c.layers ks in
      record { err = err; warnings = 0; chain = record c { layers = layers } }
