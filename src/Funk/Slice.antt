-- ===== src/Funk/Slice.antt =====
-- The slice functions of pkg/funk/slice.go.
pub mod Chunks
pub mod Members
use gosoline.Prelude.{
  ℕ, zero, suc, ◌+◌, ◌-◌, ◌*◌, ◌/◌, ◌%◌, Bool, not, ◌&&◌, ◌||◌, Option, none, some, List, [], ◌∷◌,
  ◌++◌, eqb, length, replicate, elem, assign, lookup, Comparable, ◌==◌, if◌then◌else◌, is_some,
}

module _ {ℓ} {A : Type ℓ} where
  -- result[i] = append(result[i], x), for an index in range; out of range Go panics
  abbrev pub append_at : ℕ → A → List (List A) → List (List A)
  append_at i x [] = []
  append_at zero x (b ∷ bs) = (b ++ x ∷ []) ∷ bs
  append_at (suc i) x (b ∷ bs) = b ∷ append_at i x bs

  -- the loop of Chunk over sl, from the index i
  abbrev pub chunk_from : ℕ → ℕ → List A → List (List A) → List (List A)
  chunk_from size i [] result = result
  chunk_from size i (x ∷ xs) result = chunk_from size (i + 1) xs (append_at (i / size) x result)

  -- the empty buckets that Chunk makes
  abbrev pub buckets : ℕ → ℕ → List (List A)
  buckets size len =
      let full = replicate (len / size) [] in if eqb (len % size) 0 then full else full ++ [] ∷ []

  -- Chunk, with none for nil
  abbrev pub chunk : List A → ℕ → Option (List (List A))
  chunk sl zero = none
  chunk sl (suc n) =
      if eqb (length sl) 0
      then some []
      else some (chunk_from (suc n) 0 sl (buckets (suc n) (length sl)))

  abbrev pub filter : List A → (A → Bool) → List A
  filter [] pred = []
  filter (x ∷ xs) pred = let rest = filter xs pred in if pred x then x ∷ rest else rest

  abbrev pub find_first_func : List A → (A → Bool) → Option A
  find_first_func [] pred = none
  find_first_func (x ∷ xs) pred = if pred x then some x else find_first_func xs pred

  abbrev contains_func : List A → (A → Bool) → Bool
  contains_func sl pred = is_some (find_first_func sl pred)

  abbrev any : List A → (A → Bool) → Bool
  any inp pred = is_some (find_first_func inp pred)

  abbrev none_of : List A → (A → Bool) → Bool
  none_of inp pred = not (any inp pred)

  abbrev pub all : List A → (A → Bool) → Bool
  all inp pred = none_of inp (λ i. not (pred i))

  abbrev pub reduce_from {κ} : {B : Type κ} → List A → (B → A → ℕ → B) → ℕ → B → B
  reduce_from [] op idx result = result
  reduce_from (x ∷ xs) op idx result = reduce_from xs op (idx + 1) (op result x idx)

  abbrev pub reduce {κ} : {B : Type κ} → List A → (B → A → ℕ → B) → B → B
  reduce sl op init = reduce_from sl op 0 init

  -- what a map has for a key, or the nil slice
  abbrev pub or_nil : Option (List A) → List A
  or_nil none = []
  or_nil (some group) = group

  -- Partition: an element goes to the end of the group of its key
  abbrev pub partition_from {κ} :
      {K : Type κ} → ⦃e : Comparable K⦄ → List A → (A → K) → List (K × List A) → List (K × List A)
  partition_from [] keyer result = result
  partition_from (x ∷ xs) keyer result =
      partition_from xs keyer (assign (keyer x) (or_nil (lookup (keyer x) result) ++ x ∷ []) result)

  abbrev pub partition {κ} :
      {K : Type κ} → ⦃e : Comparable K⦄ → List A → (A → K) → List (K × List A)
  partition sl keyer = partition_from sl keyer []

  -- UniqFunc
  abbrev pub uniq_func_from {κ} :
      {K : Type κ} → ⦃e : Comparable K⦄ → List A → (A → K) → List K → List A
  uniq_func_from [] fn seen = []
  uniq_func_from (x ∷ xs) fn seen =
      let rest = uniq_func_from xs fn (fn x ∷ seen) in
      if elem (fn x) seen then uniq_func_from xs fn seen else x ∷ rest

  abbrev pub uniq_func {κ} : {K : Type κ} → ⦃e : Comparable K⦄ → List A → (A → K) → List A
  uniq_func sl fn = uniq_func_from sl fn []
