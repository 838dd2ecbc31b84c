-- ===== src/Funk/Sets.antt =====
-- The sets of pkg/funk/set.go and the slice functions of pkg/funk/slice.go on top of them. A set is the
-- list of its elements; Go does not promise an order of them.
pub mod Laws
use gosoline.Prelude.{
  Bool, true, false, not, ◌&&◌, ◌||◌, List, [], ◌∷◌, ◌++◌, eqb, length, elem, Comparable, ◌==◌,
  if◌then◌else◌,
}

module _ {ℓ} {T : Type ℓ} ⦃e : Comparable T⦄ where
  -- delete(s, item)
  abbrev pub delete : T → List T → List T
  delete item [] = []
  delete item (x ∷ xs) = let rest = delete item xs in if x == item then rest else x ∷ rest

module _ {ℓ} {T : Type ℓ} ⦃e : Comparable T⦄ where
  abbrev pub contains : List T → T → Bool
  contains s item = elem item s

  -- the loop of Add, with its result so far
  abbrev pub add_from : List T → List T → Bool → List T × Bool
  add_from s [] result = (s, result)
  add_from s (item ∷ items) result =
      if contains s item then add_from s items result else add_from (s ++ item ∷ []) items true

  abbrev pub add : List T → List T → List T × Bool
  add s items = add_from s items false

  abbrev pub new_set : List T → List T
  new_set items = (add [] items).0

  abbrev add_all_from : List T → List T → Bool → List T × Bool
  add_all_from s [] result = (s, result)
  add_all_from s (item ∷ items) result =
      let (t, is_new) = add s (item ∷ []) in add_all_from t items (if is_new then true else result)

  abbrev add_all : List T → List T → List T × Bool
  add_all s items = add_all_from s items false

  -- the loop of Remove, and of RemoveAll
  abbrev pub remove_from : List T → List T → Bool → List T × Bool
  remove_from s [] result = (s, result)
  remove_from s (item ∷ items) result =
      if contains s item then remove_from (delete item s) items true else remove_from s items result

  abbrev pub remove : List T → List T → List T × Bool
  remove s items = remove_from s items false

  abbrev remove_all : List T → List T → List T × Bool
  remove_all s items = remove_from s items false

  abbrev pub contains_all : List T → List T → Bool
  contains_all s [] = true
  contains_all s (item ∷ other) = if not (contains s item) then false else contains_all s other

  abbrev empty : List T → Bool
  empty s = eqb (length s) 0

  -- the loop of SetToSlice
  abbrev pub set_to_slice_onto : List T → List T → List T
  set_to_slice_onto out [] = out
  set_to_slice_onto out (k ∷ s) = set_to_slice_onto (out ++ k ∷ []) s

  abbrev set_to_slice : List T → List T
  set_to_slice s = set_to_slice_onto [] s

  -- the elements of the one that are not in the other, in order: a loop of Difference
  abbrev pub only_in : List T → List T → List T
  only_in [] other = []
  only_in (item ∷ left) other =
      let rest = only_in left other in if not (contains other item) then item ∷ rest else rest

  abbrev pub difference : List T → List T → List T × List T
  difference left right = (only_in left (new_set right), only_in right (new_set left))

  -- the loop of Intersect
  abbrev pub intersect_from : List T → List T → List T → List T
  intersect_from [] set2 result = result
  intersect_from (item ∷ sl1) set2 result =
      if contains set2 item
      then intersect_from sl1 set2 (add result (item ∷ [])).0
      else intersect_from sl1 set2 result

  abbrev pub intersect : List T → List T → List T
  intersect sl1 sl2 = set_to_slice (intersect_from sl1 (new_set sl2) [])

  -- the loop of Uniq
  abbrev pub uniq_from : List T → List T → List T → List T
  uniq_from set res [] = res
  uniq_from set res (e ∷ sl) =
      if contains set e
      then uniq_from set res sl
      else uniq_from (add set (e ∷ [])).0 (res ++ e ∷ []) sl

  abbrev pub uniq : List T → List T
  uniq sl = uniq_from [] [] sl
