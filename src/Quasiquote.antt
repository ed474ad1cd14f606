-- ===== src/Quasiquote.antt =====
-- src/vm/quasiquote.c: the expansion of a quasiquoted template. The values, the errors and the
-- outcomes of calls are those of ListOps.
pub mod Fill
pub mod Inert
mod Tests
use list_talk.Common.{
  ℕ, zero, suc, ◌+◌, ◌-◌, Bool, true, false, Option, none, some, List, [], ◌∷◌, ◌++◌, ◌==◌,
}
use list_talk.ListOps.{
  Value, nil, pair, atom, Error, Result, ok, error, from_list, from_list_with_rest,
}
use list_talk.ListOps.Iteration.{Outcome, bind}

-- The three names that `quasiquote_walk` looks for.
pub data Operator : Type 0 where
  unquote unquote_splicing quasiquote : Operator

-- `quasiquote_single_argument`, of the form behind its operator
unfoldable pub single_argument : Value → Result Value
single_argument nil = error Error.operator_expects_one_argument
single_argument (atom n) = error Error.operator_expects_one_argument
single_argument (pair argument nil) = ok argument
single_argument (pair argument (atom n)) = error Error.operator_expects_one_argument
single_argument (pair argument (pair b d)) = error Error.operator_expects_one_argument

-- What `quasiquote_append_splice` appends.
unfoldable pub splice_items : Value → Result (List Value)
splice_items nil = ok []
splice_items (atom n) = error Error.splicing_expects_proper_list
splice_items (pair a cursor) = elim (splice_items cursor) [
  | ok values ↦ ok (a ∷ values)
  | error e ↦ error e
]

-- Rounds for a walk over a value.
unfoldable pub weight : Value → ℕ
weight nil = 3
weight (atom n) = 3
weight (pair a d) = weight a + weight d + 2

-- `struct LT_QuasiquoteResult_s`: the value, and whether it is to be spliced
abbrev pub QuasiquoteResult : Type 0
QuasiquoteResult = Value × Bool

-- `named` is `symbol_is_listtalk_name`: the operator that a word is the symbol of, if any.
module _ (named : ℕ → Option Operator) where
  unfoldable pub operator_of : Value → Option Operator
  operator_of nil = none
  operator_of (pair a d) = none
  operator_of (atom n) = named n

  -- `eval` is `LT_eval` in the environment of the expansion.
  module _ {S : Type 0} (eval : Value → S → Outcome S Value) where
    -- `LT_list(LT_car(expression), ... .value, LT_INVALID)`
    abbrev pub rebuilt : Value → Outcome S QuasiquoteResult → Outcome S QuasiquoteResult
    rebuilt car walked = bind walked (λ r. Outcome.returns (pair car (pair r.0 nil), false))

    abbrev pub given :
        {A : Type 0}
        → Result A
        → (A → S → Outcome S QuasiquoteResult)
        → S
        → Outcome S QuasiquoteResult
    given (ok a) next s = next a s
    given (error e) next s = Outcome.raises e s

    mutual
      -- `quasiquote_walk`
      pub walk : ℕ → Value → ℕ → Bool → S → Outcome S QuasiquoteResult
      walk zero expression depth list_context s = Outcome.raises Error.out_of_rounds s
      walk (suc fuel) nil depth list_context s = Outcome.returns (nil, false) s
      walk (suc fuel) (atom n) depth list_context s = Outcome.returns (atom n, false) s
      walk (suc fuel) (pair car cdr) depth list_context s = elim (operator_of car) [
        | some unquote ↦
            given (single_argument cdr)
              (λ argument s'. elim (depth == 1) [
                | true ↦ bind (eval argument s') (λ value. Outcome.returns (value, false))
                | false ↦ rebuilt car (walk fuel argument (depth - 1) false s')
              ])
              s
        | some unquote_splicing ↦
            given (single_argument cdr)
              (λ argument s'. elim (depth == 1) [
                | true ↦ elim list_context [
                  | true ↦ bind (eval argument s') (λ value. Outcome.returns (value, true))
                  | false ↦ Outcome.raises Error.splicing_outside_list s'
                ]
                | false ↦ rebuilt car (walk fuel argument (depth - 1) false s')
              ])
              s
        | some quasiquote ↦
            given (single_argument cdr)
              (λ argument s'. rebuilt car (walk fuel argument (depth + 1) false s')) s
        | none ↦ walk_items fuel [] (pair car cdr) depth s
      ]

      -- Its loop over the elements, and what comes behind it; `builder` holds the values so far.
      pub walk_items : ℕ → List Value → Value → ℕ → S → Outcome S QuasiquoteResult
      walk_items zero builder cursor depth s = Outcome.raises Error.out_of_rounds s
      walk_items (suc fuel) builder nil depth s = Outcome.returns (from_list builder, false) s
      walk_items (suc fuel) builder (atom n) depth s =
          bind (walk fuel (atom n) depth false s) (λ r s'. elim r.1 [
            | true ↦ Outcome.raises Error.splicing_outside_list s'
            | false ↦ Outcome.returns (from_list_with_rest builder r.0, false) s'
          ])
      walk_items (suc fuel) builder (pair car cdr) depth s =
          bind (walk fuel car depth true s) (λ r s'. elim r.1 [
            | true ↦
                given (splice_items r.0) (λ values. walk_items fuel (builder ++ values) cdr depth)
                  s'
            | false ↦ walk_items fuel (builder ++ (r.0 ∷ [])) cdr depth s'
          ])

    -- `LT_quasiquote`
    unfoldable pub quasiquote_value : Bool → Value → S → Outcome S Value
    quasiquote_value has_environment expression s = elim has_environment [
      | false ↦ Outcome.raises Error.expects_environment s
      | true ↦ bind (walk (weight expression) expression 1 false s) (λ r s'. elim r.1 [
        | true ↦ Outcome.raises Error.splicing_outside_list s'
        | false ↦ Outcome.returns r.0 s'
      ])
    ]
