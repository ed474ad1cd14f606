-- ===== src/ListOps/Tests.antt =====
-- Runs of the list operations, and their theorems at concrete lists.
use list_talk.Common.{
  ℕ, ◌+◌, ◌≡◌, refl, ◌↔◌, Bool, true, false, none, List, [], ◌∷◌, arith, ltb, ◌==◌, ◌&&◌, ==_iff,
  if◌then◌else◌,
}
use list_talk.ListOps.{
  Value, nil, pair, atom, Error, ok, error, from_list, truthy_p, list_length, list_length_from,
}
use list_talk.ListOps.Iteration.{
  Outcome, map_loop, check_cursors, collect_arguments, pairs, map_many, filter_loop, filter,
  for_each_loop, for_each_many, any_loop, any_many, every_loop, every_many,
}
use list_talk.ListOps.Folds.{
  tuple_seed, collect_loop, collect_tuple_stack, fold_left_loop, fold_left_many, fold_right_loop,
  fold_right_many, reduce_left_first, reduce_left_many, reduce_right_stack, reduce_right_many,
}
use list_talk.ListOps.Rows.{Spine, value_of, values_of, rows}
use list_talk.ListOps.Calls.{over_rows}
use list_talk.ListOps.Refine.{map_plan, fold_left_plan, map_many-rows, fold_left_many-rows}
use list_talk.ListOps.Reductions.{kept, filter-kept}
use list_talk.ListOps.Iteration.{bind}
use list_talk.ListOps.Reduce.{folded_right, fold_right_many-rows}
use list_talk.ListOps.Sort.{
  Comparison, merge, copy_back, merge_sort_values, sort_values, list_items, sort_using,
}
use list_talk.ListOps.Insertion.{IsOrder, IsSorted, ties}
use list_talk.ListOps.Insertion
use list_talk.ListOps.Sorted.{sort_using_lem}
use list_talk.ListOps.Plist.{
  alist_to_plist_loop, alist_to_plist, plist_to_alist_loop, plist_to_alist, alist_to_plist-inverse,
}

-- A callback that counts its calls and answers the list of its arguments.
abbrev listing : List Value → ℕ → Outcome ℕ Value
listing args calls = Outcome.returns (from_list args) (calls + 1)

abbrev abc : List Value
abc = atom 1 ∷ atom 2 ∷ atom 3 ∷ []

abbrev de : Spine
de = (atom 4 ∷ atom 5 ∷ [], none)

functions : Unit {0}
unfolding truthy_p map_loop check_cursors collect_arguments pairs map_many filter_loop filter
    for_each_loop for_each_many any_loop any_many every_loop every_many tuple_seed collect_loop
    collect_tuple_stack fold_left_loop fold_left_many fold_right_loop fold_right_many
    reduce_left_first reduce_left_many reduce_right_stack reduce_right_many merge copy_back
    merge_sort_values sort_values list_items sort_using list_length list_length_from
    alist_to_plist_loop alist_to_plist plist_to_alist_loop plist_to_alist
functions = tt

-- The map ends with the shorter list, behind two calls.
mapped :
    map_many listing (values_of ((abc, none) ∷ de ∷ [])) 0
    ≡ Outcome.returns
        (from_list (from_list (atom 1 ∷ atom 4 ∷ []) ∷ from_list (atom 2 ∷ atom 5 ∷ []) ∷ []))
        2
unfolding functions
mapped = refl

-- The right fold calls with the last row first.
folded :
    fold_right_many listing nil (values_of ((atom 1 ∷ atom 2 ∷ [], none) ∷ [])) 0
    ≡ Outcome.returns (from_list (atom 1 ∷ from_list (atom 2 ∷ nil ∷ []) ∷ [])) 2
unfolding functions
folded = refl

-- Atoms in the order of their words; any other value is smaller, and ties with its like.
abbrev weight : Value → ℕ
weight nil = 0
weight (pair a d) = 0
weight (atom n) = n + 1

abbrev by_word : Value → Value → Comparison
by_word x y =
    if ltb (weight x) (weight y)
    then Comparison.less
    else if weight x == weight y
    then Comparison.same
    else Comparison.greater

by_word-IsOrder : IsOrder by_word
by_word-IsOrder = record { total = λ x y h. ground arith; trans = λ x y z h i. ground arith }

abbrev mixed : List Value
mixed = atom 7 ∷ nil ∷ atom 2 ∷ pair nil nil ∷ atom 7 ∷ atom 1 ∷ []

sorted :
    sort_using by_word (from_list mixed)
    ≡ ok (from_list (nil ∷ pair nil nil ∷ atom 1 ∷ atom 2 ∷ atom 7 ∷ atom 7 ∷ []))
unfolding functions
sorted = refl

odd : plist_to_alist (from_list abc) ≡ error Error.plist_expects_even
unfolding functions
odd = refl

map_many-rows_example :
    map_many listing (values_of ((abc, none) ∷ de ∷ [])) 0
    ≡ over_rows listing map_plan [] (rows abc none (de ∷ [])).0 (rows abc none (de ∷ [])).1 0
map_many-rows_example = map_many-rows listing abc none (de ∷ []) 0

fold_right_many-rows_example :
    fold_right_many listing nil (values_of ((abc, none) ∷ de ∷ [])) 0
    ≡ folded_right listing nil (rows abc none (de ∷ [])) 0
fold_right_many-rows_example = fold_right_many-rows listing abc none (de ∷ []) nil 0

sort_using_lem_example :
    (ys : List Value) × (sort_using by_word (from_list mixed) ≡ ok (from_list ys))
    × IsSorted by_word ys
    × ((v : Value) → Insertion.filter (ties by_word v) ys ≡ Insertion.filter (ties by_word v) mixed)
sort_using_lem_example = sort_using_lem by_word by_word-IsOrder mixed

alist_to_plist-inverse_example :
    (alist_to_plist (pair (pair nil nil) nil) ≡ ok (from_list (nil ∷ nil ∷ []))
      → plist_to_alist (from_list (nil ∷ nil ∷ [])) ≡ ok (pair (pair nil nil) nil))
    × (plist_to_alist (pair (pair nil nil) nil) ≡ ok (from_list (nil ∷ nil ∷ []))
        → alist_to_plist (from_list (nil ∷ nil ∷ [])) ≡ ok (pair (pair nil nil) nil))
alist_to_plist-inverse_example =
    alist_to_plist-inverse (pair (pair nil nil) nil) (from_list (nil ∷ nil ∷ []))

-- Equality of values by their shape.
abbrev same_value : Value → Value → Bool
same_value nil nil = true
same_value nil (pair b e) = false
same_value nil (atom m) = false
same_value (atom n) nil = false
same_value (atom n) (pair b e) = false
same_value (atom n) (atom m) = n == m
same_value (pair a d) nil = false
same_value (pair a d) (atom m) = false
same_value (pair a d) (pair b e) = same_value a b && same_value d e

same_value_iff : (a b : Value) → (same_value a b ≡ true) ↔ (a ≡ b)
same_value_iff nil nil = ground arith
same_value_iff nil (pair b e) = ground arith
same_value_iff nil (atom m) = ground arith
same_value_iff (atom n) nil = ground arith
same_value_iff (atom n) (pair b e) = ground arith
same_value_iff (atom n) (atom m) = ground (arith, ==_iff n m)
same_value_iff (pair a d) nil = ground arith
same_value_iff (pair a d) (atom m) = ground arith
same_value_iff (pair a d) (pair b e) = ground (arith, same_value_iff a b, same_value_iff d e)

-- A callback without effect: the last argument.
abbrev last : Value → List Value → Value
last d [] = d
last d (x ∷ xs) = last x xs

abbrev answering : List Value → ℕ → Outcome ℕ Value
answering args calls = Outcome.returns (last nil args) calls

fold_left_many-rows_example :
    fold_left_many listing nil (values_of ((abc, none) ∷ de ∷ [])) 0
    ≡ over_rows listing fold_left_plan nil (rows abc none (de ∷ [])).0 (rows abc none (de ∷ [])).1 0
fold_left_many-rows_example = fold_left_many-rows listing abc none (de ∷ []) nil 0

filter-kept_example :
    filter listing (value_of (abc, none)) 0
    ≡ bind (kept listing abc none 0) (λ ys. Outcome.returns (from_list ys))
filter-kept_example = filter-kept listing abc none 0
