-- ===== src/Closure/Parameters.antt =====
-- `bind_closure_parameters` and `LT_eval_sequence` of src/vm/eval.c.
-- `eval` is `eval_form` in an environment. The tail-call marker of the last form is left out: its
-- jump ends in the same call of `LT_apply`, which then gives the value.
use list_talk.Common.{ℕ, Bool, true, false, none, some, if◌then◌else◌}
use list_talk.ListOps.{Value, nil, pair, atom, Error, Result, ok, error}
use list_talk.ListOps.Iteration.{Outcome, bind}
use list_talk.Environment
use list_talk.Environment.{Heap}
use list_talk.Closure.{
  Symbols, optional_marker, key_marker, rest_marker, plain, kind_of, key_name, keyword_messages,
  optional_messages, default_expression, symbol_word, keyword_marker_p, keyword_for_parameter,
  defaultable_parameter_name, keyword_argument_lookup, ensure_no_unknown,
}

-- The heap and the rest of the state.
abbrev pub State : Type 0 → Type 0
State S = Heap × S

abbrev pub given : {S A B : Type 0} → Result A → (A → S → Outcome S B) → S → Outcome S B
given (ok a) next s = next a s
given (error e) next s = Outcome.raises e s

-- `LT_Environment_bind(target_environment, symbol, value, 0)`
abbrev pub bind_in : {S : Type 0} → ℕ → ℕ → Value → State S → State S
bind_in target symbol value s = (Environment.bind target symbol value 0 s.0, s.1)

module _ (symbols : Symbols) {S : Type 0}
    (eval : Value → ℕ → State S → Outcome (State S) Value) where
  module _ (target : ℕ) where
    -- The loop over the parameters behind `:key`.
    unfoldable pub bind_keywords : Value → Value → State S → Outcome (State S) Unit
    unfolding defaultable_parameter_name keyword_argument_lookup
    bind_keywords nil arguments s = Outcome.returns tt s
    bind_keywords (atom n) arguments s = Outcome.raises Error.keyword_parameters_must_be_proper s
    bind_keywords (pair parameter cursor) arguments s =
        given (defaultable_parameter_name symbols keyword_messages parameter)
          (λ name s1.
            given (keyword_argument_lookup symbols arguments (keyword_for_parameter symbols name))
              (λ found s2. elim found [
                | some value ↦ bind_keywords cursor arguments (bind_in target name value s2)
                | none ↦
                    bind (eval (default_expression parameter) target s2)
                      (λ value s3. bind_keywords cursor arguments (bind_in target name value s3))
              ])
              s1)
          s

    -- What follows `:rest`; `tail` is behind the symbol.
    unfoldable pub bind_rest : Value → Value → State S → Outcome (State S) Unit
    unfolding keyword_marker_p
    bind_rest nil arguments s = Outcome.raises Error.rest_must_be_followed s
    bind_rest (atom n) arguments s = Outcome.raises Error.rest_must_be_followed s
    bind_rest (pair parameter tail) arguments s = elim (symbol_word symbols parameter) [
      | none ↦ Outcome.raises Error.rest_must_be_symbol s
      | some name ↦ elim tail [
        | nil ↦ Outcome.returns tt (bind_in target name arguments s)
        | atom n ↦ Outcome.raises Error.rest_list_must_be_proper s
        | pair trailing rest ↦
            if keyword_marker_p symbols trailing key_name
            then Outcome.raises Error.rest_and_key s
            else Outcome.raises Error.rest_must_be_last s
      ]
    ]

    -- The value of an optional parameter, and the arguments behind it.
    unfoldable pub optional_value : Value → Value → State S → Outcome (State S) (Value × Value)
    optional_value parameter (pair a d) s = Outcome.returns (a, d) s
    optional_value parameter nil s =
        bind (eval (default_expression parameter) target s) (λ value. Outcome.returns (value, nil))
    optional_value parameter (atom n) s = Outcome.raises Error.arity_mismatch s

    -- The tests behind the loop.
    unfoldable pub bind_dotted : Value → Value → State S → Outcome (State S) Unit
    bind_dotted parameters arguments s = elim (symbol_word symbols parameters) [
      | some name ↦ Outcome.returns tt (bind_in target name arguments s)
      | none ↦ elim parameters [
        | nil ↦ elim arguments [
          | nil ↦ Outcome.returns tt s
          | atom n ↦ Outcome.raises Error.arity_mismatch s
          | pair a d ↦ Outcome.raises Error.arity_mismatch s
        ]
        | atom n ↦ Outcome.raises Error.parameters_must_be_proper s
        | pair a d ↦ Outcome.raises Error.parameters_must_be_proper s
      ]
    ]

    -- The loop of `bind_closure_parameters`; `optional` is `optional_parameters`.
    unfoldable pub bind_parameters : Bool → Value → Value → State S → Outcome (State S) Unit
    unfolding defaultable_parameter_name ensure_no_unknown bind_keywords bind_rest optional_value
        bind_dotted kind_of
    bind_parameters optional nil arguments s = bind_dotted nil arguments s
    bind_parameters optional (atom n) arguments s = bind_dotted (atom n) arguments s
    bind_parameters optional (pair parameter cursor) arguments s =
        elim (kind_of symbols parameter) [
          | optional_marker ↦ elim optional [
            | true ↦ Outcome.raises Error.duplicate_optional_marker s
            | false ↦ bind_parameters true cursor arguments s
          ]
          | key_marker ↦
              given (ensure_no_unknown symbols arguments cursor)
                (λ u. bind_keywords cursor arguments) s
          | rest_marker ↦ bind_rest cursor arguments s
          | plain ↦ elim optional [
            | true ↦
                given (defaultable_parameter_name symbols optional_messages parameter)
                  (λ name s1. bind (optional_value parameter arguments s1) (λ taken s2.
                    bind_parameters true cursor taken.1 (bind_in target name taken.0 s2)))
                  s
            | false ↦ elim arguments [
              | nil ↦ Outcome.raises Error.arity_mismatch s
              | atom n ↦ Outcome.raises Error.arity_mismatch s
              | pair a d ↦ elim (symbol_word symbols parameter) [
                | none ↦ Outcome.raises Error.parameter_must_be_symbol s
                | some name ↦ bind_parameters false cursor d (bind_in target name a s)
              ]
            ]
          ]
        ]

    -- `bind_closure_parameters`; the test before the loop, for a symbol, is also behind it.
    unfoldable pub bind_closure_parameters : Value → Value → State S → Outcome (State S) Unit
    unfolding bind_parameters
    bind_closure_parameters parameters arguments s = elim (symbol_word symbols parameters) [
      | some name ↦ Outcome.returns tt (bind_in target name arguments s)
      | none ↦ bind_parameters false parameters arguments s
    ]

    -- `LT_eval_sequence`; `result` is that of the form before.
    unfoldable pub eval_sequence_from : Value → Value → State S → Outcome (State S) Value
    eval_sequence_from result nil s = Outcome.returns result s
    eval_sequence_from result (atom n) s = Outcome.raises Error.body_must_be_proper s
    eval_sequence_from result (pair form cursor) s =
        bind (eval form target s) (λ value. eval_sequence_from value cursor)
