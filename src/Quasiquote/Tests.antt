-- ===== src/Quasiquote/Tests.antt =====
-- Runs of the expansion, and its theorems at concrete templates.
use list_talk.Common.{
  ℕ, ◌+◌, ◌≡◌, refl, true, Option, none, some, List, [], ◌∷◌, ◌==◌, if◌then◌else◌,
}
use list_talk.ListOps.{Value, nil, pair, atom, Error, from_list}
use list_talk.ListOps.Iteration.{Outcome}
use list_talk.Quasiquote.{
  Operator, unquote, unquote_splicing, quasiquote, single_argument, splice_items, weight,
  operator_of, walk, walk_items, quasiquote_value,
}
use list_talk.Quasiquote.Inert.{
  Place, Inert, inert_nil, inert_atom, inert_elements, inert_list, quasiquote_value-Inert,
}
use list_talk.Quasiquote.Fill.{Piece, constant, unquoted, spliced, forms}

-- The words of the three symbols.
abbrev named : ℕ → Option Operator
named n =
    if n == 1
    then some unquote
    else if n == 2
    then some unquote_splicing
    else if n == 3
    then some quasiquote
    else none

-- An evaluator that counts its calls and answers `(x 9)` for `x`.
abbrev eval : Value → ℕ → Outcome ℕ Value
eval x calls = Outcome.returns (from_list (x ∷ atom 9 ∷ [])) (calls + 1)

functions : Unit {0}
unfolding single_argument splice_items weight operator_of walk walk_items quasiquote_value
functions = tt

abbrev pieces : List Piece
pieces = constant (atom 7) ∷ unquoted (atom 8) ∷ spliced (atom 6) ∷ []

-- `(7 ,8 ,@6)`
filled :
    quasiquote_value named eval true (from_list (forms named 1 2 pieces)) 0
    ≡ Outcome.returns
        (from_list (atom 7 ∷ from_list (atom 8 ∷ atom 9 ∷ []) ∷ atom 6 ∷ atom 9 ∷ []))
        2
unfolding functions
filled = refl

at_top :
    quasiquote_value named eval true (from_list (atom 2 ∷ nil ∷ [])) 0
    ≡ Outcome.raises Error.splicing_outside_list 0
unfolding functions
at_top = refl

-- `(7 . ,8)` is the list of 7, of the symbol `unquote` and of 8: the loop over the elements goes on
-- into the tail.
abbrev dotted : Value
dotted = pair (atom 7) (pair (atom 1) (pair (atom 8) nil))

dotted-Inert : Inert named Place.template 1 dotted
unfolding operator_of
dotted-Inert = inert_list 1 (atom 7) _ refl (
    inert_elements 1 _ _ (inert_atom _ 1 7) (
      inert_elements 1 _ _ (inert_atom _ 1 1)
        (inert_elements 1 _ _ (inert_atom _ 1 8) (inert_nil _ 1))))

quasiquote_value-Inert_example :
    quasiquote_value named eval true dotted 0 ≡ Outcome.returns dotted 0
quasiquote_value-Inert_example = quasiquote_value-Inert named eval dotted 0 dotted-Inert
