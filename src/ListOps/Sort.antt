-- ===== src/ListOps/Sort.antt =====
-- src/classes/List.c, the merge sort: `merge_sort_values`, `sort_values`, `LT_List_sortUsing`.
-- `compare` is what `sort_compare_values` makes of the answer of `compareWith:` or of the callable,
-- for one that has no effect and answers a small integer.
use list_talk.Common.{
  ℕ, zero, suc, ◌+◌, ◌-◌, ◌/◌, Bool, true, false, List, [], ◌∷◌, ltb, ◌==◌, if◌then◌else◌, length,
  take, drop,
}
use list_talk.ListOps.{Value, nil, pair, atom, Result, ok, error, from_list, list_length}

pub data Comparison : Type 0 where
  less same greater : Comparison

-- `sort_compare_values(left, right, comparator) <= 0`
abbrev pub at_most : Comparison → Bool
at_most Comparison.less = true
at_most Comparison.same = true
at_most Comparison.greater = false

-- `items[from]`, ..., `items[to - 1]`
abbrev pub segment : {A : Type 0} → List A → ℕ → ℕ → List A
segment items from to = take (to - from) (drop from items)

-- `for (i = from; i < to; i++) items[i] = scratch[i]`, where `scratch` holds `values` from `from` on.
unfoldable pub copy_back : {A : Type 0} → List A → ℕ → List A → List A
copy_back items from [] = items
copy_back [] from (v ∷ values) = []
copy_back (x ∷ items) zero (v ∷ values) = v ∷ copy_back items zero values
copy_back (x ∷ items) (suc from) (v ∷ values) = x ∷ copy_back items from (v ∷ values)

module _ {A : Type 0} (compare : A → A → Comparison) where
  -- The three loops that fill `scratch`: `lefts` is `items[left..middle)`, `rights` is
  -- `items[right..to)`, and each round takes the front of one of them. One round per value.
  unfoldable pub merge : ℕ → List A → List A → List A
  merge zero lefts rights = []
  merge (suc fuel) [] [] = []
  merge (suc fuel) [] (r ∷ rights) = r ∷ merge fuel [] rights
  merge (suc fuel) (l ∷ lefts) [] = l ∷ merge fuel lefts []
  merge (suc fuel) (l ∷ lefts) (r ∷ rights) = elim (at_most (compare l r)) [
    | true ↦ l ∷ merge fuel lefts (r ∷ rights)
    | false ↦ r ∷ merge fuel (l ∷ lefts) rights
  ]

  -- `merge_sort_values`; the two calls before the merge work on the same array. `fuel` bounds the
  -- depth of the calls.
  unfoldable pub merge_sort_values : ℕ → List A → ℕ → ℕ → List A
  merge_sort_values zero items from to = items
  merge_sort_values (suc fuel) items from to = elim (ltb (to - from) 2) [
    | true ↦ items
    | false ↦
        let middle = from + (to - from) / 2 in
        let once = merge_sort_values fuel items from middle in
        let twice = merge_sort_values fuel once middle to in
        copy_back twice from
          (merge (to - from) (segment twice from middle) (segment twice middle to))
  ]

  -- `sort_values`
  unfoldable pub sort_values : List A → ℕ → List A
  unfolding merge_sort_values
  sort_values items length = elim (ltb length 2) [
    | true ↦ items
    | false ↦ merge_sort_values length items 0 length
  ]

-- `items[i] = LT_car(list)` for each pair of the list.
unfoldable pub list_items : Value → List Value
list_items nil = []
list_items (atom n) = []
list_items (pair a d) = a ∷ list_items d

-- `LT_List_sortUsing`
module _ (compare : Value → Value → Comparison) where
  unfoldable pub sort_using : Value → Result Value
  unfolding list_items sort_values
  sort_using list = elim (list_length list) [
    | error e ↦ error e
    | ok length ↦
        if length == 0
        then ok nil
        else ok (from_list (sort_values compare (list_items list) length))
  ]
