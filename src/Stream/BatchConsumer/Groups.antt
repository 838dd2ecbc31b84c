-- ===== src/Stream/BatchConsumer/Groups.antt =====
-- How the acks of a batch are fitted to its messages and grouped by their source, in
-- pkg/stream/consumer_batch.go and consumer_acknowledge.go.
use mathlib.Core.List.{append-nil, append_assoc}
use gosoline.Prelude.{
  ℕ, zero, suc, ◌-◌, ◌≡◌, refl, sym, ap, ◌∙◌, ◌⊎◌, inl, inr, Bool, true, false, ◌&&◌, Option, none,
  some, List, [], ◌∷◌, ◌++◌, map, Bool-cases, arith, length, take, replicate, if◌then◌else◌, lookup,
  assign, lookup-assign, ◌==◌, string_comparable, beq_eq,
}
use Prim.Native.String.{String}
use gosoline.Stream.Message.{Message}
use gosoline.Stream.BatchConsumer.{ConsumerData, Group, append_group, group_acks, fit_acks}

nothing_left : (acks : List Bool) → zero - length acks ≡ zero
nothing_left acks = omega arith

empty_take : (n : ℕ) → take n [] ++ replicate (n - 0) false ≡ replicate (n - 0) false
empty_take zero = refl
empty_take (suc n) = refl

pad : (n : ℕ) → replicate (n - 0) false ≡ replicate n false
pad n = ap (λ k. replicate k false) (omega arith)

-- However many acks the callback returns, there are as many as messages then: the ones that it gave, as
-- far as they go, and else refusals.
pub fit_acks_lem :
    (n : ℕ) (acks : List Bool)
    → (fit_acks n acks ≡ take n acks ++ replicate (n - length acks) false)
      × (length (fit_acks n acks) ≡ n)
unfolding fit_acks
fit_acks_lem zero acks = (sym (ap (λ n. replicate n false) (nothing_left acks)), refl)
fit_acks_lem (suc n) [] =
    let (p, q) = fit_acks_lem n [] in
    (ap (λ t. false ∷ t) (p ∙ empty_take n ∙ pad n) ∙ sym (pad (suc n)), ap suc q)
fit_acks_lem (suc n) (ack ∷ acks) =
    let (p, q) = fit_acks_lem n acks in
    let r : suc n - length (ack ∷ acks) ≡ n - length acks = omega arith in
    (rw (p, r) refl, ap suc q)

-- The messages of a source that can be acknowledged, with their acks.
abbrev pub pairs_of : String → List ConsumerData → List Bool → List (Message × Bool)
pairs_of src [] acks = []
pairs_of src (cdata ∷ batch) [] = []
pairs_of src (cdata ∷ batch) (ack ∷ acks) =
    let later = pairs_of src batch acks in
    if cdata.acknowledgeable && cdata.src == src then (cdata.msg, ack) ∷ later else later

abbrev pub group_of : List (Message × Bool) → Option Group
group_of [] = none
group_of (p ∷ ps) = some (record { msgs = map (λ q. q.0) (p ∷ ps); acks = map (λ q. q.1) (p ∷ ps) })

abbrev extended : Option Group → List (Message × Bool) → Option Group
extended none ps = group_of ps
extended (some g) ps =
    some (record { msgs = g.msgs ++ map (λ q. q.0) ps; acks = g.acks ++ map (λ q. q.1) ps })

extended-append_group :
    (g : Option Group) (m : Message) (a : Bool) (ps : List (Message × Bool))
    → extended (some (append_group g m a)) ps ≡ extended g ((m, a) ∷ ps)
extended-append_group none m a ps = refl
extended-append_group (some g) m a ps =
    rw
      (
        append_assoc g.msgs (m ∷ []) (map (λ q. q.0) ps),
        append_assoc g.acks (a ∷ []) (map (λ q. q.1) ps),
      )
      refl

extended-nil : (g : Option Group) → g ≡ extended g []
extended-nil none = refl
extended-nil (some g) = rw (append-nil g.msgs, append-nil g.acks) refl

-- What one round of the grouping does.
abbrev put_group : ConsumerData → Bool → List (String × Group) → List (String × Group)
put_group cdata ack groups =
    if cdata.acknowledgeable
    then assign cdata.src (append_group (lookup cdata.src groups) cdata.msg ack) groups
    else groups

lookup-put_group :
    (src : String) (cdata : ConsumerData) (ack : Bool) (groups : List (String × Group))
    → lookup src (put_group cdata ack groups) ≡ (
        if cdata.acknowledgeable && cdata.src == src
        then some (append_group (lookup src groups) cdata.msg ack)
        else lookup src groups)
lookup-put_group src cdata ack groups = elim (Bool-cases cdata.acknowledgeable) [
  | inr off ↦ rw off refl
  | inl on ↦ rw on (
      lookup-assign src cdata.src (append_group (lookup cdata.src groups) cdata.msg ack) groups
      ∙ same_source (Bool-cases (cdata.src == src)))
]
  where
    same_source :
        (((cdata.src == src) ≡ true) ⊎ ((cdata.src == src) ≡ false))
        → (if cdata.src == src
            then some (append_group (lookup cdata.src groups) cdata.msg ack)
            else lookup src groups)
          ≡ (if cdata.src == src
              then some (append_group (lookup src groups) cdata.msg ack)
              else lookup src groups)
    same_source (inl p) =
        ap
          (λ t.
            if cdata.src == src
            then some (append_group (lookup t groups) cdata.msg ack)
            else lookup src groups)
          (beq_eq cdata.src src p)
    same_source (inr p) = rw p refl

extended_if :
    (b : Bool) (g : Option Group) (m : Message) (a : Bool) (ps : List (Message × Bool))
    → extended (if b then some (append_group g m a) else g) ps
      ≡ extended g (if b then (m, a) ∷ ps else ps)
extended_if true g m a ps = extended-append_group g m a ps
extended_if false g m a ps = refl

pub group_acks_lem :
    (src : String) (batch : List ConsumerData) (acks : List Bool) (groups : List (String × Group))
    → lookup src (group_acks batch acks groups)
      ≡ extended (lookup src groups) (pairs_of src batch acks)
unfolding group_acks
group_acks_lem src [] acks groups = extended-nil (lookup src groups)
group_acks_lem src (cdata ∷ batch) [] groups = extended-nil (lookup src groups)
group_acks_lem src (cdata ∷ batch) (ack ∷ acks) groups =
    let next = put_group cdata ack groups in
    group_acks_lem src batch acks next
    ∙ ap (λ g. extended g (pairs_of src batch acks)) (lookup-put_group src cdata ack groups)
    ∙ extended_if (cdata.acknowledgeable && cdata.src == src) (lookup src groups) cdata.msg ack
        (pairs_of src batch acks)
