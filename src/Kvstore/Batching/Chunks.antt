-- ===== src/Kvstore/Batching/Chunks.antt =====
-- That `keyChunks` of pkg/kvstore/batch.go cuts the keys into chunks.
use gosoline.Prelude.{
  ℕ, zero, suc, ◌≤◌, ◌<◌, ◌≡◌, refl, List, [], ◌∷◌, arith, length, drop, concat, All,
  take-append-drop, length-take, length-drop,
}
use gosoline.Kvstore.Batching.{key_chunks_from, key_chunks}

-- With enough fuel the chunks are the keys, in order, and each has one to `size` of them.
key_chunks_from_lem :
    {K : Type 0} (fuel size : ℕ) (ks : List K)
    → length ks ≤ fuel
    → 0 < size
    → (concat (key_chunks_from fuel ks size) ≡ ks)
      × All (λ chunk. (0 < length chunk) × (length chunk ≤ size)) (key_chunks_from fuel ks size)
unfolding key_chunks_from
key_chunks_from_lem zero size [] f p = (refl, tt)
key_chunks_from_lem zero size (k ∷ ks) f p = absurd (omega arith)
key_chunks_from_lem (suc fuel) size [] f p = (refl, tt)
key_chunks_from_lem (suc fuel) size (k ∷ ks) f p =
    let later =
      key_chunks_from_lem fuel size (drop size (k ∷ ks)) (omega (arith, length-drop size (k ∷ ks)))
        p in
    (
      rw later.0 (take-append-drop size (k ∷ ks)),
      (
        (omega (arith, length-take size (k ∷ ks)), omega (arith, length-take size (k ∷ ks))),
        later.1,
      ),
    )

-- The chunks, one after the other, are the keys; none is empty and none is larger than the size,
-- which must not be 0.
pub key_chunks_lem :
    {K : Type 0} (ks : List K) (size : ℕ)
    → 0 < size
    → (concat (key_chunks ks size) ≡ ks)
      × All (λ chunk. (0 < length chunk) × (length chunk ≤ size)) (key_chunks ks size)
unfolding key_chunks
key_chunks_lem ks size p = key_chunks_from_lem (length ks) size ks (omega arith) p
