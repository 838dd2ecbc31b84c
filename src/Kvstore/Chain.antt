-- ===== src/Kvstore/Chain.antt =====
-- `chainKvStore` of pkg/kvstore/chain.go: layers of stores, read from the first and written to all,
-- with a cache for the keys that no layer has. Each call returns the chain as it leaves it, the
-- error, and how many warnings it logged. The layers are distinct stores.
pub mod Coherence
pub mod Writes
pub mod Batch
use gosoline.Prelude.{
  ℕ, suc, ◌+◌, Bool, true, false, not, ◌&&◌, Option, none, some, List, [], ◌∷◌, ◌++◌, is_some,
  if◌then◌else◌,
}
use gosoline.Kvstore.Store.{KvStore, Read, Error, wrapped}

-- `logger`, `factory` and `settings` are not read by the operations.
pub record Chain (S : Type 0) : Type 0 where
  pub layers : List S
  pub missing_cache : S

pub record GetOutcome (S V : Type 0) : Type 0 where
  pub exists : Bool
  pub value : V
  pub err : Option Error
  pub warnings : ℕ
  pub chain : Chain S

pub record WriteOutcome (S : Type 0) : Type 0 where
  pub err : Option Error
  pub warnings : ℕ
  pub chain : Chain S

-- NewChainKvStoreWithInterfaces
unfoldable new_chain : {S : Type 0} → S → Chain S
new_chain missing_cache = record { layers = []; missing_cache = missing_cache }

-- A warning is logged for an error that does not end the call.
abbrev pub warning : Option Error → ℕ
warning none = 0
warning (some e) = 1

abbrev pub wrap : Option Error → Option Error
wrap none = none
wrap (some e) = some (wrapped e)

-- `i == lastElementIndex`, of the element before `rest`
abbrev pub is_last : {S : Type 0} → List S → Bool
is_last [] = true
is_last (s ∷ rest) = false

-- AddStore
unfoldable add_store : {S : Type 0} → Chain S → S → Chain S
add_store c store = record c { layers = c.layers ++ store ∷ [] }

-- What the loop of `Get` has at its end: `found_in` is `foundInIndex`.
pub record Walk (S V : Type 0) : Type 0 where
  pub layers : List S
  pub exists : Bool
  pub value : V
  pub found_in : ℕ
  pub err : Option Error
  pub warnings : ℕ

-- One round of the loop of `Get`: `r` is what the element answered, `rest` the elements after it,
-- and `later` what the rounds after it give.
unfoldable pub after_get : {S V : Type 0} → Read S V → List S → Walk S V → Walk S V
after_get r rest later =
    if is_last rest && is_some r.err
    then record {
      layers = r.store ∷ rest;
      exists = false;
      value = r.value;
      found_in = 0;
      err = wrap r.err;
      warnings = 0;
    }
    else if r.exists
    then record {
      layers = r.store ∷ rest;
      exists = true;
      value = r.value;
      found_in = 0;
      err = none;
      warnings = warning r.err;
    }
    else record later {
      layers = r.store ∷ later.layers;
      found_in = suc later.found_in;
      warnings = warning r.err + later.warnings;
    }

-- `zero_value` is `*new(T)`.
module _ {S K V : Type 0} (ops : KvStore S K V) (zero_value : V) where
  -- The loop of `Get`. `exists` is false before it, and after each element that it goes past.
  unfoldable pub walk : List S → K → V → Walk S V
  walk [] key value = record {
    layers = [];
    exists = false;
    value = value;
    found_in = 0;
    err = none;
    warnings = 0;
  }
  walk (element ∷ rest) key value =
      let r = ops.get element key value in
      let later = walk rest key r.value in after_get r rest later

  -- `for i := foundInIndex - 1; i >= 0; i--`: the layers below the index, and the warnings.
  unfoldable pub propagate : ℕ → List S → K → V → List S × ℕ
  propagate (suc i) (element ∷ rest) key value =
      let (rest', warnings) = propagate i rest key value in
      let r = ops.put element key value in (r.store ∷ rest', warning r.err + warnings)
  propagate _ layers key value = (layers, 0)

  -- the code after the loop
  unfoldable pub finish_get : S → ℕ → K → Walk S V → GetOutcome S V
  finish_get missing_cache warnings key w =
      if is_some w.err
      then record {
        exists = false;
        value = w.value;
        err = w.err;
        warnings = warnings + w.warnings;
        chain = record { layers = w.layers; missing_cache = missing_cache };
      }
      else if not w.exists
      then (let r = ops.put missing_cache key zero_value in
          record {
            exists = false;
            value = w.value;
            err = none;
            warnings = warnings + w.warnings + warning r.err;
            chain = record { layers = w.layers; missing_cache = r.store };
          })
      else (let (layers, more) = propagate w.found_in w.layers key w.value in
          record {
            exists = true;
            value = w.value;
            err = none;
            warnings = warnings + w.warnings + more;
            chain = record { layers = layers; missing_cache = missing_cache };
          })

  unfoldable pub get : Chain S → K → V → GetOutcome S V
  get c key value =
      let r = ops.contains c.missing_cache key in
      let w = walk c.layers key value in
      if r.exists
      then record {
        exists = false;
        value = value;
        err = none;
        warnings = warning r.err;
        chain = record c { missing_cache = r.store };
      }
      else finish_get r.store (warning r.err) key w

  unfoldable pub contains : Chain S → K → GetOutcome S V
  contains c key = get c key zero_value

  -- the loop of `Put`
  unfoldable pub put_layers : List S → K → V → List S × Option Error × ℕ
  put_layers [] key value = ([], none, 0)
  put_layers (element ∷ rest) key value =
      let r = ops.put element key value in
      let (rest', err, warnings) = put_layers rest key value in
      if is_last rest && is_some r.err
      then (r.store ∷ rest, wrap r.err, 0)
      else (r.store ∷ rest', err, warning r.err + warnings)

  unfoldable pub put : Chain S → K → V → WriteOutcome S
  put c key value =
      let (layers, err, warnings) = put_layers c.layers key value in
      let r = ops.delete c.missing_cache key in
      if is_some err
      then record { err = err; warnings = warnings; chain = record c { layers = layers } }
      else record {
        err = none;
        warnings = warnings + warning r.err;
        chain = record { layers = layers; missing_cache = r.store };
      }

  -- the loop of `Delete`, which ends at the first error
  unfoldable pub delete_layers : List S → K → List S × Option Error
  delete_layers [] key = ([], none)
  delete_layers (store ∷ rest) key =
      let r = ops.delete store key in
      let (rest', err) = delete_layers rest key in
      if is_some r.err then (r.store ∷ rest, wrap r.err) else (r.store ∷ rest', err)

  unfoldable pub delete : Chain S → K → WriteOutcome S
  delete c key =
      let (layers, err) = delete_layers c.layers key in
      record { err = err; warnings = 0; chain = record c { layers = layers } }
