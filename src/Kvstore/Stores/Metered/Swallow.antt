-- ===== src/Kvstore/Stores/Metered/Swallow.antt =====
-- What the store of pkg/kvstore/metric.go does with the errors of the store around which it is.
use gosoline.Prelude.{◌≡◌, refl, none, List, [], ◌∷◌}
use gosoline.Kvstore.Store.{KvStore}
use gosoline.Kvstore.Chain.{Chain, put_layers, put}
use gosoline.Kvstore.Stores.Metered.{Metered, metered}
use gosoline.Kvstore.Stores.Metered

module _ {S K V : Type 0} (ops : KvStore S K V) (zero_value : V) where
  put_layers_fine :
      (layers : List (Metered S)) (k : K) (v : V)
      → (put_layers (metered ops) zero_value layers k v).1 ≡ none
  unfolding put_layers metered Metered.put
  put_layers_fine [] k v = refl
  put_layers_fine (s ∷ []) k v = refl
  put_layers_fine (s ∷ t ∷ rest) k v = put_layers_fine (t ∷ rest) k v

  -- Put on a chain of metered stores returns no error, whatever its stores return: also if the last
  -- one, which is to keep the value, fails.
  pub chain_put_swallows :
      (c : Chain (Metered S)) (k : K) (v : V) → (put (metered ops) zero_value c k v).err ≡ none
  unfolding put
  chain_put_swallows c k v = rw (put_layers_fine c.layers k v) refl
