-- ===== src/ListOps/Reduce.antt =====
-- `LT_List_fold_right_many`, `LT_List_reduce_left_many` and `LT_List_reduce_right_many` against
-- the rows of the lists.
use list_talk.Common.{
  ℕ, suc, ◌≡◌, refl, ap, ◌∙◌, Bool, true, false, Option, none, some, List, [], ◌∷◌, length, inl,
  inr,
}
use list_talk.ListOps.{Value, Error, ok, error}
use list_talk.ListOps.Iteration.{Outcome, pairs}
use list_talk.ListOps.Folds.{
  tuple_seed, collect_loop, collect_tuple_stack, fold_left_loop, fold_right_loop, fold_right_many,
  reduce_left_first, reduce_left_many, reduce_right_stack, reduce_right_many,
}
use list_talk.ListOps.Rows.{Spine, heads, values_of, rows, pairs_lem, collect_arguments_lem}
use list_talk.ListOps.Calls.{over_rows, loop-rows, Front-cases}
use list_talk.ListOps.Refine.{fold_left_plan, fold_left_rounds}
use list_talk.ListOps.Reductions.{
  stacked, collect_loop-rows, from_right, fold_right_loop-stack, bind-returns, from_last,
  reduce_right_stack-last,
}

length_values : (ls : List Spine) → length (values_of ls) ≡ length ls
length_values [] = refl
length_values (l ∷ ls) = ap suc (length_values ls)

collect_tuple_stack-rows :
    (xs : List Value) (e : Option ℕ) (ls : List Spine)
    → collect_tuple_stack (values_of ((xs, e) ∷ ls)) ≡ stacked (rows xs e ls) []
unfolding collect_tuple_stack
collect_tuple_stack-rows xs e ls =
    ap (λ n. collect_loop (suc n) [] (values_of ((xs, e) ∷ ls))) (pairs_lem xs e)
    ∙ collect_loop-rows xs e ls []

module _ {S : Type 0} (apply : List Value → S → Outcome S Value) where
  -- What the right fold does with the rows, and with the list that ended behind them.
  unfoldable pub folded_right : Value → List (List Value) × Bool → S → Outcome S Value
  folded_right initial (rs, true) s = from_right apply rs initial s
  folded_right initial (rs, false) s = Outcome.raises Error.expects_proper_lists s

  unfoldable pub reduced_right : ℕ → List (List Value) × Bool → S → Outcome S Value
  reduced_right n ([], true) s = Outcome.raises Error.at_least_one_tuple s
  reduced_right n (r ∷ rs, true) s = from_last apply n r rs s
  reduced_right n (rs, false) s = Outcome.raises Error.expects_proper_lists s

  unfoldable pub reduced_left : ℕ → List (List Value) × Bool → S → Outcome S Value
  reduced_left n ([], true) s = Outcome.raises Error.at_least_one_tuple s
  reduced_left n ([], false) s = Outcome.raises Error.expects_proper_lists s
  reduced_left n (r ∷ rs, proper) s = over_rows apply fold_left_plan (tuple_seed r n) rs proper s

  module _ (xs : List Value) (e : Option ℕ) (ls : List Spine) where
    abbrev lists : List Value
    lists = values_of ((xs, e) ∷ ls)

    -- `LT_List_fold_right_many` calls once for each row of the lists, from the last to the first,
    -- each time with the answer of the call before behind the row; where the list that ends is not
    -- proper it raises before any call.
    pub fold_right_many-rows :
        (initial : Value) (s : S)
        → fold_right_many apply initial lists s ≡ folded_right initial (rows xs e ls) s
    unfolding fold_right_many folded_right
    fold_right_many-rows initial s =
        rw (fold_right_many, collect_tuple_stack-rows xs e ls) (by_rows (rows xs e ls))
      where
        by_rows :
            (r : List (List Value) × Bool)
            → elim (stacked r []) [
              | error e ↦ Outcome.raises e s
              | ok stack ↦ fold_right_loop apply stack initial s
            ]
              ≡ folded_right initial r s
        by_rows (rs, true) =
            fold_right_loop-stack apply rs [] initial s
            ∙ bind-returns apply (from_right apply rs initial s)
        by_rows (rs, false) = refl

    -- `LT_List_reduce_right_many` is the right fold with the last row as the initial value; without
    -- a row it raises.
    pub reduce_right_many-rows :
        (s : S) → reduce_right_many apply lists s ≡ reduced_right (length lists) (rows xs e ls) s
    unfolding reduce_right_many reduced_right reduce_right_stack
    reduce_right_many-rows s =
        rw (reduce_right_many, collect_tuple_stack-rows xs e ls) (by_rows (rows xs e ls))
      where
        by_rows :
            (r : List (List Value) × Bool)
            → elim (stacked r []) [
              | error e ↦ Outcome.raises e s
              | ok stack ↦ reduce_right_stack apply (length lists) stack s
            ]
              ≡ reduced_right (length lists) r s
        by_rows ([], true) = refl
        by_rows ([], false) = refl
        by_rows (r ∷ rs, true) =
            reduce_right_stack-last apply (length lists) r rs [] s
            ∙ bind-returns apply (from_last apply (length lists) r rs s)
        by_rows (r ∷ rs, false) = refl

  -- `LT_List_reduce_left_many` is the left fold of the rows behind the first, with the first as the
  -- initial value; without a row it raises.
  pub reduce_left_many-rows :
      (xs : List Value) (e : Option ℕ) (ls : List Spine) (s : S)
      → reduce_left_many apply (values_of ((xs, e) ∷ ls)) s
        ≡ reduced_left (length (values_of ((xs, e) ∷ ls))) (rows xs e ls) s
  unfolding reduce_left_many reduce_left_first reduced_left rows heads pairs
  reduce_left_many-rows [] none ls s =
      rw (reduce_left_many, reduce_left_first, collect_arguments_lem (([], none) ∷ ls))
  reduce_left_many-rows [] (some n) ls s =
      rw (reduce_left_many, reduce_left_first, collect_arguments_lem (([], some n) ∷ ls))
  reduce_left_many-rows (x ∷ xs) e ls s = elim (Front-cases (heads ls)) [
    | inl h ↦
        rw (reduce_left_many, reduce_left_first, collect_arguments_lem ((x ∷ xs, e) ∷ ls), rows, h)
    | inr (inl h) ↦
        rw (reduce_left_many, reduce_left_first, collect_arguments_lem ((x ∷ xs, e) ∷ ls), rows, h)
    | inr (inr (hs, t, h)) ↦
        rw (reduce_left_many, reduce_left_first, collect_arguments_lem ((x ∷ xs, e) ∷ ls), rows, h)
          (ap
              (λ n.
                fold_left_loop apply n (tuple_seed (x ∷ hs) (length (values_of ((x ∷ xs, e) ∷ ls))))
                  (values_of ((xs, e) ∷ t)) s)
              (ap suc (pairs_lem xs e))
            ∙ loop-rows apply fold_left_plan (fold_left_loop apply) (fold_left_rounds apply) xs e t
                (tuple_seed (x ∷ hs) (length (values_of ((x ∷ xs, e) ∷ ls)))) s)
  ]
