-- ===== src/Closure/Tests.antt =====
-- Tests of closures (src/vm/eval.c).
use list_talk.Common.{
  false, ℕ, ◌+◌, ◌%◌, true, [], ◌∷◌, none, some, ◌==◌, ◌≡◌, refl, if◌then◌else◌, leb, arith, length,
}
use list_talk.ListOps.{Value, nil, atom, Error, ok, from_list}
use list_talk.ListOps.Iteration.{Outcome}
use list_talk.Environment.{new, Heap, fresh}
use list_talk.Environment.Scopes.{AreScopes}
use list_talk.Environment.Growth.{grown-AreScopes}
use list_talk.Environment.Arguments.{bind_each}
use list_talk.Closure.{
  Symbols, optional_name, key_name, rest_name, default_expression, defaultable_parameter_name,
  keyword_marker_p, kind_of, supplied_keyword, keyword_known, keyword_argument_lookup,
  ensure_no_unknown,
}
use list_talk.Closure.Parameters.{
  State, bind_in, optional_value, bind_keywords, bind_rest, bind_dotted, bind_parameters,
  bind_closure_parameters,
}
use list_talk.Closure.Scope.{Lexical, parameter_list, bind_closure_parameters-arity}
use list_talk.Hash.Keys.{str_eq}
use list_talk.Closure.Compile.{
  Store, nil_word, shadow_parameters, store_compiled, compile_closure, compile_closure_body,
  compiled_body_of, apply_closure,
}
use list_talk.Closure.Application.{run_body, apply_closure-Lexical}
use list_talk.Closure.Keywords.{Keywords, value_of, ensured-Keywords}

-- Keywords are the words from 1000 on.
abbrev letters : Symbols
letters = record {
  symbol_p = λ w. true;
  in_keyword_package = λ w. leb 1000 w;
  name = λ w.
      if w == 2000
      then optional_name
      else if w == 2001
      then key_name
      else if w == 2002
      then rest_name
      else (w % 1000) ∷ [];
  keyword = λ n. elim n [ [] ↦ 1000 | c ∷ cs ↦ 1000 + c ];
}

-- Every expression is its own value.
abbrev constant_eval : Value → ℕ → State ℕ → Outcome (State ℕ) Value
constant_eval expression e s = Outcome.returns expression s

abbrev one : Heap
one = record { environments = fresh none 0 nil ∷ []; compilation_epoch = 0 }

abbrev one_AreScopes : AreScopes one.environments
one_AreScopes = grown-AreScopes [] (λ e h. absurd (omega arith)) none 0 nil tt

-- One required parameter, and an optional one with a default.
optional_default :
    bind_closure_parameters letters constant_eval 0
      (from_list (atom 97 ∷ atom 2000 ∷ from_list (atom 98 ∷ atom 5 ∷ []) ∷ []))
      (from_list (atom 3 ∷ []))
      (one, 0)
    ≡ Outcome.returns tt (bind_in 0 98 (atom 5) (bind_in 0 97 (atom 3) (one, 0)))
unfolding bind_closure_parameters bind_parameters kind_of keyword_marker_p str_eq optional_value
    defaultable_parameter_name default_expression bind_dotted
optional_default = refl

-- A keyword parameter with its argument.
keyword_given :
    bind_closure_parameters letters constant_eval 0
      (from_list (atom 2001 ∷ atom 97 ∷ []))
      (from_list (atom 1097 ∷ atom 3 ∷ []))
      (one, 0)
    ≡ Outcome.returns tt (bind_in 0 97 (atom 3) (one, 0))
unfolding bind_closure_parameters bind_parameters kind_of keyword_marker_p str_eq bind_keywords
    defaultable_parameter_name ensure_no_unknown keyword_known supplied_keyword
    keyword_argument_lookup
keyword_given = refl

-- A rest parameter.
rest_given :
    bind_closure_parameters letters constant_eval 0
      (from_list (atom 97 ∷ atom 2002 ∷ atom 98 ∷ []))
      (from_list (atom 3 ∷ atom 4 ∷ []))
      (one, 0)
    ≡ Outcome.returns tt (bind_in 0 98 (from_list (atom 4 ∷ [])) (bind_in 0 97 (atom 3) (one, 0)))
unfolding bind_closure_parameters bind_parameters kind_of keyword_marker_p str_eq bind_rest
rest_given = refl

bind_closure_parameters-arity_example :
    bind_closure_parameters letters constant_eval 0
      (parameter_list (97 ∷ []))
      (from_list (nil ∷ atom 1 ∷ []))
      (one, 0)
    ≡ (if length {A = ℕ} (97 ∷ []) == length {A = Value} (nil ∷ atom 1 ∷ [])
        then Outcome.returns tt (bind_each 0 (97 ∷ []) (nil ∷ atom 1 ∷ []) one, 0)
        else Outcome.raises Error.arity_mismatch (bind_each 0 (97 ∷ []) (nil ∷ atom 1 ∷ []) one, 0))
bind_closure_parameters-arity_example =
    bind_closure_parameters-arity letters constant_eval 0 (97 ∷ []) (nil ∷ atom 1 ∷ []) (one, 0)
      ((refl, refl), tt)

abbrev store_eval : Value → ℕ → State (Store ℕ) → Outcome (State (Store ℕ)) Value
store_eval expression e s = Outcome.returns expression s

-- A heap, a closure whose compiled body is stale, and the rest.
abbrev stale : State (Store ℕ)
stale = (
  record { environments = fresh none 0 nil ∷ []; compilation_epoch = 1 },
  (
    record {
      parameters = parameter_list (97 ∷ 98 ∷ []);
      body = from_list (atom 97 ∷ []);
      compiled_body = nil;
      compilation_epoch = 0;
      environment = some 0;
    }
        ∷ [],
    0,
  ),
)

apply_closure-Lexical_example :
    (after : Heap) × ((apply_closure letters store_eval store_eval 0
          (from_list (atom 1 ∷ nil ∷ []))
          0
          nil
          stale
        ≡ run_body letters store_eval store_eval 0 1 (after, stale.1))
      × ((after.compilation_epoch ≡ 1)
          × Lexical stale.0 (some 0) (97 ∷ 98 ∷ []) (atom 1 ∷ nil ∷ []) after 0))
apply_closure-Lexical_example =
    apply_closure-Lexical letters store_eval store_eval (97 ∷ 98 ∷ []) (atom 1 ∷ nil ∷ []) 0 0 nil
      stale 0 refl ((refl, refl), ((refl, refl), tt)) refl one_AreScopes (omega arith) (omega arith)

-- The compilation stores the body and the epoch.
recompiled :
    compiled_body_of letters store_eval store_eval 0 stale
    ≡ Outcome.returns (from_list (atom 97 ∷ [])) (
        store_compiled letters store_eval store_eval 0 (from_list (atom 97 ∷ [])) 1 (
          shadow_parameters letters 1 false
              (parameter_list (97 ∷ 98 ∷ []))
              (new (some 0) nil_word nil stale.0).1,
          stale.1,
        ))
unfolding compiled_body_of compile_closure compile_closure_body new
recompiled = refl

-- A keyword twice, and the first value counts.
abbrev twice : Value
twice = from_list (atom 1097 ∷ atom 3 ∷ atom 1097 ∷ atom 4 ∷ [])

twice_ensured : ensure_no_unknown letters twice (from_list (atom 97 ∷ [])) ≡ ok tt
unfolding ensure_no_unknown keyword_known supplied_keyword defaultable_parameter_name
twice_ensured = refl

ensured-Keywords_example :
    (ks : Keywords letters twice (from_list (atom 97 ∷ []))) × ((k : ℕ)
      → keyword_argument_lookup letters twice k ≡ ok (value_of k ks.keywords))
ensured-Keywords_example = ensured-Keywords letters twice (from_list (atom 97 ∷ [])) twice_ensured
