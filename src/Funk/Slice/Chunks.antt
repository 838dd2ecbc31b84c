-- ===== src/Funk/Slice/Chunks.antt =====
-- That Chunk of pkg/funk/slice.go cuts a slice into full chunks and a last one.
use mathlib.Core.List.{append_assoc, append-nil}
use mathlib.Core.Path.{subst}
use gosoline.Prelude.{
  ℕ, zero, suc, ◌+◌, ◌*◌, ◌/◌, ◌%◌, ◌≤◌, ◌<◌, ◌≡◌, refl, sym, ap, ◌∙◌, inl, inr, false, some, List,
  [], ◌∷◌, ◌++◌, arith, eqb, ltb, length, concat, replicate, concat-append, length-append, All,
  All-append, Bool-cases,
}
use gosoline.Funk.Slice.{append_at, chunk_from, buckets, chunk}

quotient : (size q r : ℕ) → r < size → (q * size + r) / size ≡ q
quotient size q r h = grind arith

at_end : (i size q r : ℕ) → 1 ≤ size → r ≡ size → i ≡ q * size + r → i / size ≡ q + 1
at_end i size q r p h e = grind arith

pred_of : (m : ℕ) → 1 ≤ m → (k : ℕ) × (m ≡ suc k)
pred_of zero h = absurd (omega arith)
pred_of (suc k) h = (k, refl)

module _ {ℓ} {A : Type ℓ} where
  -- All chunks but the last are full, and the last has at least one element.
  abbrev AreChunksOf : ℕ → List A → List (List A) → Type ℓ
  AreChunksOf size sl chunks =
      (full : List (List A)) × (last : List A) × (chunks ≡ full ++ last ∷ [])
      × All (λ c. length c ≡ size) full
      × (1 ≤ length last)
      × (length last ≤ size)
      × (concat chunks ≡ sl)

  abbrev empties : ℕ → List (List A)
  empties n = replicate n []

  append_at_lem :
      (full : List (List A)) (cur : List A) (x : A) (rest : List (List A))
      → append_at (length full) x (full ++ cur ∷ rest) ≡ full ++ (cur ++ x ∷ []) ∷ rest
  append_at_lem [] cur x rest = refl
  append_at_lem (f ∷ fs) cur x rest = ap (λ t. f ∷ t) (append_at_lem fs cur x rest)

  put_last :
      (xs cur : List A) (x : A) (rest : List A)
      → xs ++ (cur ++ x ∷ []) ++ rest ≡ xs ++ cur ++ x ∷ rest
  put_last xs cur x rest =
      append_assoc xs (cur ++ x ∷ []) rest
      ∙ ap (λ t. xs ++ t) (append_assoc cur (x ∷ []) rest)
      ∙ sym (append_assoc xs cur (x ∷ rest))

  close_bucket :
      (full : List (List A)) (cur : List A) (x : A) (xs : List A)
      → concat (full ++ cur ∷ []) ++ x ∷ [] ++ xs ≡ concat full ++ cur ++ x ∷ xs
  close_bucket full cur x xs =
      ap (λ t. t ++ x ∷ [] ++ xs)
        (concat-append full (cur ∷ []) ∙ ap (λ t. concat full ++ t) (append-nil cur))
      ∙ append_assoc (concat full ++ cur) (x ∷ []) xs

  -- The loop fills one bucket after the other, if they are as many as are needed.
  chunk_from_lem :
      (size i : ℕ) (xs : List A) (full : List (List A)) (cur : List A) (m : ℕ)
      → 1 ≤ size
      → All (λ c. length c ≡ size) full
      → length cur ≤ size
      → i ≡ length full * size + length cur
      → m * size < length cur + length xs
      → length cur + length xs ≤ (1 + m) * size
      → AreChunksOf size (concat full ++ cur ++ xs) (chunk_from size i xs (full ++ cur ∷ empties m))
  chunk_from_lem size i [] full cur zero p h r e lo hi = (
    full,
    cur,
    refl,
    h,
    omega arith,
    r,
    concat-append full (cur ∷ []) ∙ sym (append_assoc (concat full) cur []),
  )
  chunk_from_lem size i [] full cur (suc m) p h r e lo hi = absurd (omega arith)
  chunk_from_lem size i (x ∷ xs) full cur m p h r e lo hi =
      elim (Bool-cases (ltb (length cur) size)) [
        | inl less ↦
            let here : i / size ≡ length full =
              rw e (quotient size (length full) (length cur) (ground arith)) in
            rw (here, append_at_lem full cur x (empties m))
              (subst
                (λ t.
                  AreChunksOf size t
                    (chunk_from size (i + 1) xs (full ++ (cur ++ x ∷ []) ∷ empties m)))
                (put_last (concat full) cur x xs)
                (chunk_from_lem size (i + 1) xs full (cur ++ x ∷ []) m p h
                  (ground (arith, length-append cur (x ∷ [])))
                  (omega (arith, length-append cur (x ∷ [])))
                  (omega (arith, length-append cur (x ∷ [])))
                  (omega (arith, length-append cur (x ∷ [])))))
        | inr equal ↦
            let (k, one_more) = pred_of m (grind arith) in
            let here : i / size ≡ length (full ++ cur ∷ []) =
              rw (at_end i size (length full) (length cur) p (ground arith) e)
                (omega (arith, length-append full (cur ∷ []))) in
            let moved : append_at (i / size) x (full ++ cur ∷ empties m)
                ≡ full ++ cur ∷ [] ++ (x ∷ []) ∷ empties k =
              rw (one_more, here)
                (rw (sym (append_assoc full (cur ∷ []) ([] ∷ empties k)))
                  (append_at_lem (full ++ cur ∷ []) [] x (empties k))) in
            rw moved (
              subst
                (λ t.
                  AreChunksOf size t
                    (chunk_from size (i + 1) xs (full ++ cur ∷ [] ++ (x ∷ []) ∷ empties k)))
                (close_bucket full cur x xs)
                (chunk_from_lem size (i + 1) xs (full ++ cur ∷ []) (x ∷ []) k p
                  (All-append (λ c. length c ≡ size) full (cur ∷ []) h (ground arith, tt)) p
                  (grind (arith, length-append full (cur ∷ []))) (grind arith) (grind arith)))
      ]

  replicate_snoc : (q : ℕ) → empties q ++ [] ∷ [] ≡ empties (suc q)
  replicate_snoc zero = refl
  replicate_snoc (suc q) = ap (λ t. [] ∷ t) (replicate_snoc q)

  -- There are as many buckets as are needed.
  buckets_lem :
      (size len : ℕ)
      → 1 ≤ size
      → 1 ≤ len
      → (m : ℕ) × (buckets size len ≡ empties (suc m)) × (m * size < len) × (len ≤ (1 + m) * size)
  buckets_lem size len p q = elim (Bool-cases (eqb (len % size) 0)) [
    | inl even ↦
        let (k, e) = pred_of (len / size) (grind arith) in
        (k, rw (even, e) refl, grind arith, grind arith)
    | inr odd ↦ (len / size, rw odd (replicate_snoc (len / size)), grind arith, grind arith)
  ]

  -- Chunk of a slice that is not empty, for a positive size, gives full chunks and then one of at
  -- least one element and at most `size`, and they are the slice, one after the other.
  chunk_lem :
      (size : ℕ) (x : A) (xs : List A)
      → 1 ≤ size
      → (chunks : List (List A)) × (chunk (x ∷ xs) size ≡ some chunks)
        × AreChunksOf size (x ∷ xs) chunks
  chunk_lem zero x xs p = absurd (omega arith)
  chunk_lem (suc n) x xs p =
      let some_elements : eqb (length (x ∷ xs)) 0 ≡ false = ground arith in
      let (m, e, lo, hi) = buckets_lem (suc n) (length (x ∷ xs)) p (omega arith) in
      (
        chunk_from (suc n) 0 (x ∷ xs) (buckets (suc n) (length (x ∷ xs))),
        rw some_elements refl,
        rw e (
            chunk_from_lem (suc n) 0 (x ∷ xs) [] [] m p tt (omega arith) (omega arith)
              (omega (arith, lo)) (omega (arith, hi))),
      )
