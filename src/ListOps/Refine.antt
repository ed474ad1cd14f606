-- ===== src/ListOps/Refine.antt =====
-- `LT_List_map_many`, `_for_each_many`, `_any_many`, `_every_many` and `_fold_left_many` against
-- the rows of the lists.
use list_talk.Common.{ℕ, suc, ◌≡◌, ap, ◌∙◌, Bool, true, false, Option, List, [], ◌∷◌, ◌++◌, arith}
use list_talk.ListOps.{Value, from_list, truthy_p}
use list_talk.ListOps.Iteration.{
  Outcome, collect_arguments, map_loop, map_many, for_each_loop, for_each_many, any_loop, any_many,
  every_loop, every_many,
}
use list_talk.ListOps.Folds.{fold_left_loop, fold_left_many}
use list_talk.ListOps.Rows.{Spine, values_of, rows, pairs_lem}
use list_talk.ListOps.Calls.{Plan, over_rows, round, loop-rows}

module _ {S : Type 0} where
  -- `map` collects what the calls answer.
  abbrev pub map_plan : Plan S (List Value) Value
  map_plan = record {
    call = λ values row. row;
    next = λ values v go_on. go_on (values ++ (v ∷ []));
    done = from_list;
  }

  abbrev pub for_each_plan : Plan S (Unit {0}) (Unit {0})
  for_each_plan = record { call = λ u row. row; next = λ u v go_on. go_on u; done = λ u. u }

  -- `any` stops at the first true answer, `every` at the first false one.
  abbrev pub any_plan : Plan S (Unit {0}) Bool
  any_plan = record {
    call = λ u row. row;
    next = λ u v go_on s. elim (truthy_p v) [ true ↦ Outcome.returns true s | false ↦ go_on u s ];
    done = λ u. false;
  }

  abbrev pub every_plan : Plan S (Unit {0}) Bool
  every_plan = record {
    call = λ u row. row;
    next = λ u v go_on s. elim (truthy_p v) [ true ↦ go_on u s | false ↦ Outcome.returns false s ];
    done = λ u. true;
  }

  -- `fold-left` calls with the last answer and the row.
  abbrev pub fold_left_plan : Plan S Value Value
  fold_left_plan = record {
    call = λ accumulator row. accumulator ∷ row;
    next = λ accumulator v go_on. go_on v;
    done = λ accumulator. accumulator;
  }

module _ {S : Type 0} (apply : List Value → S → Outcome S Value) where
  map_rounds :
      (n : ℕ) (a : List Value) (cursors : List Value) (s : S)
      → map_loop apply (suc n) a cursors s
        ≡ round apply map_plan (map_loop apply n) a (collect_arguments cursors) s
  unfolding map_loop round
  map_rounds n a cursors s = ground arith

  for_each_rounds :
      (n : ℕ) (a : Unit {0}) (cursors : List Value) (s : S)
      → for_each_loop apply (suc n) cursors s
        ≡ round apply for_each_plan (λ u. for_each_loop apply n) a (collect_arguments cursors) s
  unfolding for_each_loop round
  for_each_rounds n a cursors s = ground arith

  any_rounds :
      (n : ℕ) (a : Unit {0}) (cursors : List Value) (s : S)
      → any_loop apply (suc n) cursors s
        ≡ round apply any_plan (λ u. any_loop apply n) a (collect_arguments cursors) s
  unfolding any_loop round
  any_rounds n a cursors s = ground arith

  every_rounds :
      (n : ℕ) (a : Unit {0}) (cursors : List Value) (s : S)
      → every_loop apply (suc n) cursors s
        ≡ round apply every_plan (λ u. every_loop apply n) a (collect_arguments cursors) s
  unfolding every_loop round
  every_rounds n a cursors s = ground arith

  pub fold_left_rounds :
      (n : ℕ) (a : Value) (cursors : List Value) (s : S)
      → fold_left_loop apply (suc n) a cursors s
        ≡ round apply fold_left_plan (fold_left_loop apply n) a (collect_arguments cursors) s
  unfolding fold_left_loop round
  fold_left_rounds n a cursors s = ground arith

  module _ (xs : List Value) (e : Option ℕ) (ls : List Spine) where
    abbrev lists : List Value
    lists = values_of ((xs, e) ∷ ls)

    abbrev each : {A B : Type 0} → Plan S A B → A → S → Outcome S B
    each p a = over_rows apply p a (rows xs e ls).0 (rows xs e ls).1

    -- `LT_List_map_many` calls once for each row of the lists, in order, and answers the list of
    -- the answers; it raises behind the last row where the list that ended is not proper.
    pub map_many-rows : (s : S) → map_many apply lists s ≡ each map_plan [] s
    unfolding map_many
    map_many-rows s =
        ap (λ n. map_loop apply (suc n) [] lists s) (pairs_lem xs e)
        ∙ loop-rows apply map_plan (map_loop apply) map_rounds xs e ls [] s

    -- `LT_List_for_each_many` makes the same calls, and answers nothing.
    pub for_each_many-rows : (s : S) → for_each_many apply lists s ≡ each for_each_plan tt s
    unfolding for_each_many
    for_each_many-rows s =
        ap (λ n. for_each_loop apply (suc n) lists s) (pairs_lem xs e)
        ∙ loop-rows apply for_each_plan (λ n u. for_each_loop apply n) for_each_rounds xs e ls tt s

    -- `LT_List_any_many` makes the same calls up to the first that answers true, and then answers
    -- true; without one it answers false.
    pub any_many-rows : (s : S) → any_many apply lists s ≡ each any_plan tt s
    unfolding any_many
    any_many-rows s =
        ap (λ n. any_loop apply (suc n) lists s) (pairs_lem xs e)
        ∙ loop-rows apply any_plan (λ n u. any_loop apply n) any_rounds xs e ls tt s

    -- `LT_List_every_many` makes the same calls up to the first that answers false, and then
    -- answers false; without one it answers true.
    pub every_many-rows : (s : S) → every_many apply lists s ≡ each every_plan tt s
    unfolding every_many
    every_many-rows s =
        ap (λ n. every_loop apply (suc n) lists s) (pairs_lem xs e)
        ∙ loop-rows apply every_plan (λ n u. every_loop apply n) every_rounds xs e ls tt s

    -- `LT_List_fold_left_many` calls once for each row of the lists, in order, with the answer of
    -- the call before, and answers the last answer, or the initial value without a row.
    pub fold_left_many-rows :
        (initial : Value) (s : S)
        → fold_left_many apply initial lists s ≡ each fold_left_plan initial s
    unfolding fold_left_many
    fold_left_many-rows initial s =
        ap (λ n. fold_left_loop apply (suc n) initial lists s) (pairs_lem xs e)
        ∙ loop-rows apply fold_left_plan (fold_left_loop apply) fold_left_rounds xs e ls initial s
