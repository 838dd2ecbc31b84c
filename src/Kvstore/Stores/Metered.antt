-- ===== src/Kvstore/Stores/Metered.antt =====
-- `MetricStore` of pkg/kvstore/metric.go: a store around another one, that counts its operations.
pub mod Swallow
use gosoline.Prelude.{
  ℕ, ◌≡◌, Bool, ◌&&◌, not, none, List, [], ◌∷◌, ◌++◌, is_some, length, if◌then◌else◌,
}
use gosoline.Kvstore.Store.{KvStore, Read, Write, Batch}

-- The data that are written: a hit of a batch has the number of the keys, and of the missing ones,
-- of which the code writes the difference.
pub data Metric : Type 0 where
  reads : ℕ → Metric
  hits : ℕ → ℕ → Metric
  writes : ℕ → Metric
  deletes : ℕ → Metric

-- `recorded` is what went to the metric writer, in order.
pub record Metered (S : Type 0) : Type 0 where
  pub inner : S
  pub recorded : List Metric

abbrev record_if : Bool → Metric → List Metric
record_if b m = if b then m ∷ [] else []

module _ {S K V : Type 0} (ops : KvStore S K V) where
  contains : Metered S → K → Read (Metered S) V
  contains s key =
      let r = ops.contains s.inner key in
      record {
        exists = r.exists;
        value = r.value;
        err = r.err;
        store = record {
          inner = r.store;
          recorded = s.recorded ++ reads 1 ∷ record_if (r.exists && not (is_some r.err)) (hits 1 0);
        };
      }

  get : Metered S → K → V → Read (Metered S) V
  get s key value =
      let r = ops.get s.inner key value in
      record {
        exists = r.exists;
        value = r.value;
        err = r.err;
        store = record {
          inner = r.store;
          recorded = s.recorded ++ reads 1 ∷ record_if (r.exists && not (is_some r.err)) (hits 1 0);
        };
      }

  get_batch : Metered S → List K → List (K × V) → Batch (Metered S) K V
  get_batch s keys values =
      let r = ops.get_batch s.inner keys values in
      record {
        missing = r.missing;
        values = r.values;
        err = r.err;
        store = record {
          inner = r.store;
          recorded =
              s.recorded
              ++ reads (length keys)
                ∷ record_if (not (is_some r.err)) (hits (length keys) (length r.missing));
        };
      }

  -- Put and PutBatch return nil, whatever the store returned.
  unfoldable pub put : Metered S → K → V → Write (Metered S)
  put s key value =
      let r = ops.put s.inner key value in
      record {
        err = none;
        store = record {
          inner = r.store;
          recorded = s.recorded ++ record_if (not (is_some r.err)) (writes 1);
        };
      }

  put_batch : Metered S → List (K × V) → Write (Metered S)
  put_batch s values =
      let r = ops.put_batch s.inner values in
      record {
        err = none;
        store = record {
          inner = r.store;
          recorded = s.recorded ++ record_if (not (is_some r.err)) (writes (length values));
        };
      }

  delete : Metered S → K → Write (Metered S)
  delete s key =
      let r = ops.delete s.inner key in
      record {
        err = r.err;
        store = record {
          inner = r.store;
          recorded = s.recorded ++ record_if (not (is_some r.err)) (deletes 1);
        };
      }

  delete_batch : Metered S → List K → Write (Metered S)
  delete_batch s keys =
      let r = ops.delete_batch s.inner keys in
      record {
        err = r.err;
        store = record {
          inner = r.store;
          recorded = s.recorded ++ record_if (not (is_some r.err)) (deletes (length keys));
        };
      }

  unfoldable pub metered : KvStore (Metered S) K V
  unfolding contains get get_batch put put_batch delete delete_batch
  metered = record {
    contains = contains;
    get = get;
    get_batch = get_batch;
    put = put;
    put_batch = put_batch;
    delete = delete;
    delete_batch = delete_batch;
  }
