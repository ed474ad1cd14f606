-- ===== src/ListOps/Pure.antt =====
-- The operations on one proper list with a callback that has no effect.
use list_talk.Common.{◌≡◌, refl, ap, ◌∙◌, true, none, List, [], ◌∷◌, ◌++◌}
use mathlib.Core.List.{append_assoc, append-nil}
use list_talk.ListOps.{Value, from_list}
use list_talk.ListOps.Iteration.{Outcome, map}
use list_talk.ListOps.Folds.{fold_left, fold_right}
use list_talk.ListOps.Rows.{heads, rows}
use list_talk.ListOps.Calls.{over_rows}
use list_talk.ListOps.Refine.{map_plan, fold_left_plan, map_many-rows, fold_left_many-rows}
use list_talk.ListOps.Reductions.{from_right}
use list_talk.ListOps.Reduce.{folded_right, fold_right_many-rows}

abbrev pub each : (Value → Value) → List Value → List Value
each f [] = []
each f (x ∷ xs) = f x ∷ each f xs

abbrev pub left : (Value → Value → Value) → Value → List Value → Value
left f a [] = a
left f a (x ∷ xs) = left f (f a x) xs

abbrev pub right : (Value → Value → Value) → Value → List Value → Value
right f a [] = a
right f a (x ∷ xs) = f x (right f a xs)

abbrev singles : List Value → List (List Value)
singles [] = []
singles (x ∷ xs) = (x ∷ []) ∷ singles xs

rows-singles : (xs : List Value) → rows xs none [] ≡ (singles xs, true)
unfolding rows heads
rows-singles [] = refl
rows-singles (x ∷ xs) = ap (λ r. ((x ∷ []) ∷ r.0, r.1)) (rows-singles xs)

module _ {S : Type 0} (apply : List Value → S → Outcome S Value) where
  module _ (f : Value → Value)
      (pure : (x : Value) (s : S) → apply (x ∷ []) s ≡ Outcome.returns (f x) s) where
    over_rows-each :
        (xs built : List Value) (s : S)
        → over_rows apply map_plan built (singles xs) true s
          ≡ Outcome.returns (from_list (built ++ each f xs)) s
    unfolding over_rows
    over_rows-each [] built s = rw (append-nil built)
    over_rows-each (x ∷ xs) built s =
        rw (pure x s) (
          over_rows-each xs (built ++ (f x ∷ [])) s
          ∙ rw (append_assoc built (f x ∷ []) (each f xs)))

    -- Where the callback answers `f` of its argument and has no effect, `LT_List_map` of a proper
    -- list answers the list of `f` of its elements.
    pub map-each :
        (xs : List Value) (s : S)
        → map apply (from_list xs) s ≡ Outcome.returns (from_list (each f xs)) s
    map-each xs s =
        map_many-rows apply xs none [] s
        ∙ ap (λ r. over_rows apply map_plan [] r.0 r.1 s) (rows-singles xs)
        ∙ over_rows-each xs [] s

  module _ (f : Value → Value → Value)
      (pure : (x y : Value) (s : S) → apply (x ∷ y ∷ []) s ≡ Outcome.returns (f x y) s) where
    over_rows-left :
        (xs : List Value) (a : Value) (s : S)
        → over_rows apply fold_left_plan a (singles xs) true s ≡ Outcome.returns (left f a xs) s
    unfolding over_rows
    over_rows-left [] a s = refl
    over_rows-left (x ∷ xs) a s = rw (pure a x s) (over_rows-left xs (f a x) s)

    from_right-right :
        (xs : List Value) (a : Value) (s : S)
        → from_right apply (singles xs) a s ≡ Outcome.returns (right f a xs) s
    unfolding from_right
    from_right-right [] a s = refl
    from_right-right (x ∷ xs) a s = rw (from_right-right xs a s) (pure x (right f a xs) s)

    -- Where the callback answers `f` of its two arguments and has no effect, `LT_List_fold_left`
    -- and `LT_List_fold_right` of a proper list are the left and the right fold of `f`.
    pub folds_lem :
        (xs : List Value) (a : Value) (s : S)
        → (fold_left apply a (from_list xs) s ≡ Outcome.returns (left f a xs) s)
          × (fold_right apply a (from_list xs) s ≡ Outcome.returns (right f a xs) s)
    unfolding folded_right
    folds_lem xs a s = (
      fold_left_many-rows apply xs none [] a s
          ∙ ap (λ r. over_rows apply fold_left_plan a r.0 r.1 s) (rows-singles xs)
          ∙ over_rows-left xs a s,
      fold_right_many-rows apply xs none [] a s
          ∙ ap (λ r. folded_right apply a r s) (rows-singles xs)
          ∙ from_right-right xs a s,
    )
