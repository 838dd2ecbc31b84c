-- ===== src/Kvstore/Stores/Empty/Layer.antt =====
-- The store of pkg/kvstore/empty.go keeps what a layer of a chain promises: it may be any layer but the
-- last, and the missing cache that a chain without one has.
use mathlib.Core.Bool.{false≢true}
use gosoline.Prelude.{refl, inl, inr, none, Comparable}
use gosoline.Kvstore.Store.{Laws}
use gosoline.Kvstore.Stores.Empty.{empty_store}

empty_laws :
    {K V : Type 0} ⦃e : Comparable K⦄ (zero_value : V)
    → Laws {S = Unit {0}} {K = K} {V = V} (empty_store zero_value)
unfolding empty_store
empty_laws zero_value = record {
  view = λ s k. none;
  Durable = λ s. ⊥;
  contains_sound = λ s k h. absurd (false≢true h);
  contains_frame = λ s k j v h. h;
  get_found = λ s k b h. absurd (false≢true h);
  get_missing = λ s k b d h q. refl;
  get_frame = λ s k j b v h. h;
  get_durable = λ s k b d. absurd d;
  put_adds = λ s k j v w h. inr h;
  put_replaces = λ s k v w q h. cc;
  put_durable = λ s k v d. absurd d;
  delete_removes = λ s k q. refl;
  delete_frame = λ s k j v h. h;
  delete_durable = λ s k d. absurd d;
  get_batch_sound = λ s ks m j v h. inl h;
  get_batch_keeps = λ s ks m j h. h;
  get_batch_missing = λ s ks m d q. absurd d;
  get_batch_complete = λ s ks m j q h. inl h;
  get_batch_frame = λ s ks m j v h. h;
  get_batch_durable = λ s ks m d. absurd d;
  put_batch_adds = λ s m j v h. inr h;
}
