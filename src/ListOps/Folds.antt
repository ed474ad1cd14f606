-- ===== src/ListOps/Folds.antt =====
-- src/classes/List.c: the folds and reductions over one list or several at once.
use list_talk.Common.{ℕ, zero, suc, List, [], ◌∷◌, ◌++◌, ◌==◌, if◌then◌else◌, length}
use list_talk.ListOps.{Value, nil, Error, Result, ok, error, from_list}
use list_talk.ListOps.Iteration.{
  Outcome, bind, ended, improper, arguments, collect_arguments, pairs, with_lists,
}

-- `tuple_seed`
unfoldable pub tuple_seed : List Value → ℕ → Value
tuple_seed [] list_count = nil
tuple_seed (car ∷ cdr) list_count = if list_count == 1 then car else from_list (car ∷ cdr)

-- `collect_tuple_stack`: the last tuple comes to the front.
unfoldable pub collect_loop : ℕ → List (List Value) → List Value → Result (List (List Value))
collect_loop zero stack cursors = Result.error Error.out_of_rounds
collect_loop (suc fuel) stack cursors = elim (collect_arguments cursors) [
  | ended ↦ Result.ok stack
  | improper ↦ Result.error Error.expects_proper_lists
  | arguments args rest ↦ collect_loop fuel (args ∷ stack) rest
]

unfoldable pub collect_tuple_stack : List Value → Result (List (List Value))
unfolding collect_loop
collect_tuple_stack [] = Result.error Error.at_least_one_list
collect_tuple_stack (v ∷ vs) = collect_loop (suc (pairs v)) [] (v ∷ vs)

module _ {S : Type 0} (apply : List Value → S → Outcome S Value) where
  -- `LT_List_fold_left_many`; `apply_left_fold_callable` puts the accumulator before the arguments.
  unfoldable pub fold_left_loop : ℕ → Value → List Value → S → Outcome S Value
  fold_left_loop zero accumulator cursors s = Outcome.raises Error.out_of_rounds s
  fold_left_loop (suc fuel) accumulator cursors s = elim (collect_arguments cursors) [
    | ended ↦ Outcome.returns accumulator s
    | improper ↦ Outcome.raises Error.expects_proper_lists s
    | arguments args rest ↦
        bind (apply (accumulator ∷ args) s) (λ value. fold_left_loop fuel value rest)
  ]

  unfoldable pub fold_left_many : Value → List Value → S → Outcome S Value
  unfolding fold_left_loop
  fold_left_many initial lists s = with_lists lists (λ fuel. fold_left_loop fuel initial) s

  -- The loop of `LT_List_fold_right_many` and `LT_List_reduce_right_many` over the stack;
  -- `apply_right_fold_callable` puts the accumulator behind the arguments.
  unfoldable pub fold_right_loop : List (List Value) → Value → S → Outcome S Value
  fold_right_loop [] accumulator s = Outcome.returns accumulator s
  fold_right_loop (args ∷ stack) accumulator s =
      bind (apply (args ++ (accumulator ∷ [])) s) (fold_right_loop stack)

  unfoldable pub fold_right_many : Value → List Value → S → Outcome S Value
  unfolding fold_right_loop
  fold_right_many initial lists s = elim (collect_tuple_stack lists) [
    | error e ↦ Outcome.raises e s
    | ok stack ↦ fold_right_loop stack initial s
  ]

  -- `LT_List_reduce_left_many`: the first tuple, which takes a round, is the seed.
  unfoldable pub reduce_left_first : ℕ → ℕ → List Value → S → Outcome S Value
  reduce_left_first zero list_count cursors s = Outcome.raises Error.out_of_rounds s
  reduce_left_first (suc fuel) list_count cursors s = elim (collect_arguments cursors) [
    | ended ↦ Outcome.raises Error.at_least_one_tuple s
    | improper ↦ Outcome.raises Error.expects_proper_lists s
    | arguments args rest ↦ fold_left_loop fuel (tuple_seed args list_count) rest s
  ]

  unfoldable pub reduce_left_many : List Value → S → Outcome S Value
  unfolding reduce_left_first
  reduce_left_many lists s = with_lists lists (λ fuel. reduce_left_first fuel (length lists)) s

  -- `LT_List_reduce_right_many`: the last tuple is the seed.
  unfoldable pub reduce_right_stack : ℕ → List (List Value) → S → Outcome S Value
  reduce_right_stack list_count [] s = Outcome.raises Error.at_least_one_tuple s
  reduce_right_stack list_count (last ∷ stack) s =
      fold_right_loop stack (tuple_seed last list_count) s

  unfoldable pub reduce_right_many : List Value → S → Outcome S Value
  unfolding reduce_right_stack
  reduce_right_many lists s = elim (collect_tuple_stack lists) [
    | error e ↦ Outcome.raises e s
    | ok stack ↦ reduce_right_stack (length lists) stack s
  ]

  -- `LT_List_fold_left`, `LT_List_fold_right`, `LT_List_reduce_left` and `LT_List_reduce_right`
  abbrev pub fold_left : Value → Value → S → Outcome S Value
  fold_left initial list = fold_left_many initial (list ∷ [])

  abbrev pub fold_right : Value → Value → S → Outcome S Value
  fold_right initial list = fold_right_many initial (list ∷ [])

  abbrev pub reduce_left : Value → S → Outcome S Value
  reduce_left list = reduce_left_many (list ∷ [])

  abbrev pub reduce_right : Value → S → Outcome S Value
  reduce_right list = reduce_right_many (list ∷ [])
