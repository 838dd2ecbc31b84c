-- ===== src/Kvstore/Chain/Writes.antt =====
-- What `Put` and `Delete` of pkg/kvstore/chain.go do to a coherent chain.
use mathlib.Core.Path.{subst}
use gosoline.Prelude.{
  ◌≡◌, ◌≢◌, sym, ap, ◌∙◌, inl, inr, false, Option, none, some, List, [], ◌∷◌, arith, Bool-cases,
  Option-cases, Comparable, ◌==◌, beq_refl, if◌then◌else◌,
}
use gosoline.Kvstore.Store.{KvStore, Laws}
use gosoline.Kvstore.Chain.{Chain, put_layers, put, delete_layers, delete}
use gosoline.Kvstore.Chain.Coherence.{Sound, Layered, Layered-cons, IsCoherent}

module _ {K V : Type 0} ⦃e : Comparable K⦄ where
  -- What is stored after a write of `k`, and after its removal.
  abbrev pub update : (K → Option V) → K → V → K → Option V
  update truth k v j = if k == j then some v else truth j

  abbrev pub erase : (K → Option V) → K → K → Option V
  erase truth k j = if k == j then none else truth j

module _ {S K V : Type 0} ⦃e : Comparable K⦄ (ops : KvStore S K V) (laws : Laws ops)
    (zero_value : V) (truth : K → Option V) where
  open laws use {view, Durable}

  -- To prove a statement of every key, prove it of `k` and of the others.
  at_or_off :
      {P : K → Type 0} (k : K) → P k → ((j : K) → k ≢ j → (k == j) ≡ false → P j) → (j : K) → P j
  at_or_off {P} k h g j = elim (Bool-cases (k == j)) [
    | inl p ↦ subst P ((e.equals_iff k j).0 p) h
    | inr p ↦ g j (λ q. cc (p, (e.equals_iff k j).1 q)) p
  ]

  Sound-put :
      (s : S) (k : K) (v : V)
      → (ops.put s k v).err ≡ none
      → Sound ops laws truth s
      → Sound ops laws (update truth k v) (ops.put s k v).store
  Sound-put s k v fine h =
      at_or_off
        {P = λ j. (w : V) → view (ops.put s k v).store j ≡ some w → update truth k v j ≡ some w} k
        (λ w p. rw beq_refl (ap some (sym (laws.put_replaces s k v w fine p))))
        (λ j n q w p. rw q (elim (laws.put_adds s k j v w p) [
          | inl (same, _) ↦ absurd (n same)
          | inr old ↦ h j w old
        ]))

  put_last :
      (s : S) (k : K) (v : V)
      → Layered ops laws truth (s ∷ [])
      → (ops.put s k v).err ≡ none
      → Layered ops laws (update truth k v) ((ops.put s k v).store ∷ [])
  put_last s k v h fine = (
    d.0,
    at_or_off {P = λ j. view (ops.put s k v).store j ≡ update truth k v j} k
        (rw beq_refl (d.1 fine)) (λ j n q. rw q (d.2 j n ∙ h.1 j)),
  )
    where
      d :
          Durable (ops.put s k v).store
          × ((ops.put s k v).err ≡ none → view (ops.put s k v).store k ≡ some v)
          × ((j : K) → k ≢ j → view (ops.put s k v).store j ≡ view s j)
      d = laws.put_durable s k v h.0

  put_layers-Layered :
      (layers : List S) (k : K) (v : V)
      → Layered ops laws truth layers
      → (put_layers ops zero_value layers k v).1 ≡ none
      → (put_layers ops zero_value layers k v).2 ≡ 0
      → Layered ops laws (update truth k v) (put_layers ops zero_value layers k v).0
  unfolding put_layers
  put_layers-Layered [] k v h fine quiet = h
  put_layers-Layered (s ∷ []) k v h fine quiet =
      let ok : (ops.put s k v).err ≡ none = ground arith in rw ok (put_last s k v h ok)
  put_layers-Layered (s ∷ t ∷ rest) k v h fine quiet =
      Layered-cons ops laws zero_value (update truth k v) (ops.put s k v).store
        (put_layers ops zero_value (t ∷ rest) k v).0 (Sound-put s k v (ground arith) h.0)
        (put_layers-Layered (t ∷ rest) k v h.1 fine (omega arith))

  -- Put without an error or a warning leaves a chain that is coherent with the new value stored.
  pub put-IsCoherent :
      (c : Chain S) (k : K) (v : V)
      → IsCoherent ops laws truth c
      → (put ops zero_value c k v).err ≡ none
      → (put ops zero_value c k v).warnings ≡ 0
      → IsCoherent ops laws (update truth k v) (put ops zero_value c k v).chain
  unfolding put
  put-IsCoherent c k v h fine quiet =
      elim (Option-cases (put_layers ops zero_value c.layers k v).1) [
        | inr (x, bad) ↦ absurd (ground arith)
        | inl ok ↦ rw ok (record {
          layered = put_layers-Layered c.layers k v h.layered ok (ground arith);
          absent =
              at_or_off
                {P = λ j.
                  (w : V)
                  → view (ops.delete c.missing_cache k).store j ≡ some w
                  → update truth k v j ≡ none}
                k (λ w p. cc (p, laws.delete_removes c.missing_cache k (ground arith)))
                (λ j n q w p. rw q (h.absent j w (laws.delete_frame c.missing_cache k j w p)));
        })
      ]

  Sound-delete :
      (s : S) (k : K)
      → (ops.delete s k).err ≡ none
      → Sound ops laws truth s
      → Sound ops laws (erase truth k) (ops.delete s k).store
  Sound-delete s k fine h =
      at_or_off
        {P = λ j. (w : V) → view (ops.delete s k).store j ≡ some w → erase truth k j ≡ some w} k
        (λ w p. cc (p, laws.delete_removes s k fine))
        (λ j n q w p. rw q (h j w (laws.delete_frame s k j w p)))

  delete_layers-Layered :
      (layers : List S) (k : K)
      → Layered ops laws truth layers
      → (delete_layers ops zero_value layers k).1 ≡ none
      → Layered ops laws (erase truth k) (delete_layers ops zero_value layers k).0
  unfolding delete_layers
  delete_layers-Layered [] k h fine = h
  delete_layers-Layered (s ∷ []) k h fine =
      let ok : (ops.delete s k).err ≡ none = ground arith in
      let d : Durable (ops.delete s k).store
          × ((j : K) → k ≢ j → view (ops.delete s k).store j ≡ view s j) =
        laws.delete_durable s k h.0 in
      rw ok (
        d.0,
        at_or_off {P = λ j. view (ops.delete s k).store j ≡ erase truth k j} k
            (rw beq_refl (laws.delete_removes s k ok)) (λ j n q. rw q (d.1 j n ∙ h.1 j)),
      )
  delete_layers-Layered (s ∷ t ∷ rest) k h fine =
      let ok : (ops.delete s k).err ≡ none = ground arith in
      rw ok (
        Layered-cons ops laws zero_value (erase truth k) (ops.delete s k).store
          (delete_layers ops zero_value (t ∷ rest) k).0 (Sound-delete s k ok h.0)
          (delete_layers-Layered (t ∷ rest) k h.1 (ground arith)))

  -- Delete without an error leaves a chain that is coherent with the key stored nowhere.
  pub delete-IsCoherent :
      (c : Chain S) (k : K)
      → IsCoherent ops laws truth c
      → (delete ops zero_value c k).err ≡ none
      → IsCoherent ops laws (erase truth k) (delete ops zero_value c k).chain
  unfolding delete
  delete-IsCoherent c k h fine = record {
    layered = delete_layers-Layered c.layers k h.layered fine;
    absent =
        at_or_off {P = λ j. (w : V) → view c.missing_cache j ≡ some w → erase truth k j ≡ none} k
          (λ w p. rw beq_refl) (λ j n q w p. rw q (h.absent j w p));
  }
