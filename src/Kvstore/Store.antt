-- ===== src/Kvstore/Store.antt =====
-- `KvStore` of pkg/kvstore/kvstore.go, as the operations that a value of the interface answers.
-- Every dynamic type of a store is a value of the one type `S`: the operations dispatch on it, and
-- return the store as the call leaves it.
use gosoline.Prelude.{
  ◌≡◌, ◌≢◌, ◌⊎◌, Bool, true, false, Option, none, some, List, [], ◌∷◌, Comparable, All, elem,
  lookup, is_some,
}

-- `error`, of which the code reads only whether it is nil; the text says where it was made.
pub data Error : Type 0 where
  failed : Error
  wrapped : Error → Error

-- (bool, error), with what `*value` holds after the call
pub record Read (S V : Type 0) : Type 0 where
  pub exists : Bool
  pub value : V
  pub err : Option Error
  pub store : S

-- error
pub record Write (S : Type 0) : Type 0 where
  pub err : Option Error
  pub store : S

-- ([]any, error), with what the map `values` holds after the call
pub record Batch (S K V : Type 0) : Type 0 where
  pub missing : List K
  pub values : List (K × V)
  pub err : Option Error
  pub store : S

pub record KvStore (S K V : Type 0) : Type 0 where
  pub contains : S → K → Read S V
  pub get : S → K → V → Read S V
  pub get_batch : S → List K → List (K × V) → Batch S K V
  pub put : S → K → V → Write S
  pub put_batch : S → List (K × V) → Write S
  pub delete : S → K → Write S
  pub delete_batch : S → List K → Write S

-- The value is stored at the key in a map, whose entries are in any order.
abbrev pub Entry : {K V : Type 0} → K → V → List (K × V) → Type 0
Entry j v [] = ⊥
Entry j v ((k, w) ∷ m) = ((k ≡ j) × (w ≡ v)) ⊎ Entry j v m

module _ {S K V : Type 0} ⦃e : Comparable K⦄ (ops : KvStore S K V) where
  -- What a layer of a chain promises. It may forget entries (expiry, eviction), and it may fail;
  -- it does not make entries up. The last layer is durable: it forgets nothing.
  pub record Laws : Type 1 where
    pub view : S → K → Option V
    pub Durable : S → Type 0
    pub contains_sound :
        (s : S) (k : K) → (ops.contains s k).exists ≡ true → (v : V) × (view s k ≡ some v)
    pub contains_frame :
        (s : S) (k j : K) (v : V) → view (ops.contains s k).store j ≡ some v → view s j ≡ some v
    pub get_found :
        (s : S) (k : K) (b : V)
        → (ops.get s k b).exists ≡ true
        → view s k ≡ some (ops.get s k b).value
    pub get_missing :
        (s : S) (k : K) (b : V)
        → Durable s
        → (ops.get s k b).exists ≡ false
        → (ops.get s k b).err ≡ none
        → view s k ≡ none
    pub get_frame :
        (s : S) (k j : K) (b v : V) → view (ops.get s k b).store j ≡ some v → view s j ≡ some v
    pub get_durable :
        (s : S) (k : K) (b : V)
        → Durable s
        → Durable (ops.get s k b).store × ((j : K) → view (ops.get s k b).store j ≡ view s j)
    pub put_adds :
        (s : S) (k j : K) (v w : V)
        → view (ops.put s k v).store j ≡ some w
        → ((k ≡ j) × (w ≡ v)) ⊎ (view s j ≡ some w)
    pub put_replaces :
        (s : S) (k : K) (v w : V)
        → (ops.put s k v).err ≡ none
        → view (ops.put s k v).store k ≡ some w
        → w ≡ v
    pub put_durable :
        (s : S) (k : K) (v : V)
        → Durable s
        → Durable (ops.put s k v).store
          × ((ops.put s k v).err ≡ none → view (ops.put s k v).store k ≡ some v)
          × ((j : K) → k ≢ j → view (ops.put s k v).store j ≡ view s j)
    pub delete_removes :
        (s : S) (k : K) → (ops.delete s k).err ≡ none → view (ops.delete s k).store k ≡ none
    pub delete_frame :
        (s : S) (k j : K) (v : V) → view (ops.delete s k).store j ≡ some v → view s j ≡ some v
    pub delete_durable :
        (s : S) (k : K)
        → Durable s
        → Durable (ops.delete s k).store
          × ((j : K) → k ≢ j → view (ops.delete s k).store j ≡ view s j)
    -- a batch is read into the map: it gains true entries, and loses none
    pub get_batch_sound :
        (s : S) (ks : List K) (m : List (K × V)) (j : K) (v : V)
        → lookup j (ops.get_batch s ks m).values ≡ some v
        → (lookup j m ≡ some v) ⊎ (view s j ≡ some v)
    pub get_batch_keeps :
        (s : S) (ks : List K) (m : List (K × V)) (j : K)
        → is_some (lookup j m) ≡ true
        → is_some (lookup j (ops.get_batch s ks m).values) ≡ true
    pub get_batch_missing :
        (s : S) (ks : List K) (m : List (K × V))
        → Durable s
        → (ops.get_batch s ks m).err ≡ none
        → All (λ j. view s j ≡ none) (ops.get_batch s ks m).missing
    pub get_batch_complete :
        (s : S) (ks : List K) (m : List (K × V)) (j : K)
        → (ops.get_batch s ks m).err ≡ none
        → elem j ks ≡ true
        → (elem j (ops.get_batch s ks m).missing ≡ true)
          ⊎ (is_some (lookup j (ops.get_batch s ks m).values) ≡ true)
    pub get_batch_frame :
        (s : S) (ks : List K) (m : List (K × V)) (j : K) (v : V)
        → view (ops.get_batch s ks m).store j ≡ some v
        → view s j ≡ some v
    pub get_batch_durable :
        (s : S) (ks : List K) (m : List (K × V))
        → Durable s
        → Durable (ops.get_batch s ks m).store
          × ((j : K) → view (ops.get_batch s ks m).store j ≡ view s j)
    pub put_batch_adds :
        (s : S) (m : List (K × V)) (j : K) (v : V)
        → view (ops.put_batch s m).store j ≡ some v
        → Entry j v m ⊎ (view s j ≡ some v)
