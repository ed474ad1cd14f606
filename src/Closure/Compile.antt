-- ===== src/Closure/Compile.antt =====
-- `LT_Closure_compiled_body` of src/classes/Closure.c, and `apply_closure` of src/vm/eval.c.
-- Closures are shared: a closure is its index in the list of all closures, which the state has beside
-- the heap. Its name and its documentation are left out, and so are the memory orders of the epochs.
-- `fold` is `LT_compiler_fold_expression`, which may do to the state what an evaluation does.
use list_talk.Common.{
  ℕ, ◌*◌, ◌^◌, Bool, true, false, List, Option, none, some, ◌==◌, if◌then◌else◌, get_or, set,
}
use list_talk.ListOps.{Value, nil, pair, atom, Error}
use list_talk.ListOps.Iteration.{Outcome, bind}
use list_talk.Environment
use list_talk.Environment.{Heap, new}
use list_talk.Closure.{
  Symbols, optional_marker, key_marker, rest_marker, plain, kind_of, symbol_word,
}
use list_talk.Closure.Parameters.{State, bind_closure_parameters, eval_sequence_from}

-- `struct LT_Closure_s`
pub record Closure : Type 0 where
  pub parameters : Value
  pub body : Value
  pub compiled_body : Value
  pub compilation_epoch : ℕ
  pub environment : Option ℕ

-- The closures, and the rest of the state.
abbrev pub Store : Type 0 → Type 0
Store R = List Closure × R

abbrev pub closure_at : List Closure → ℕ → Closure
closure_at closures c = get_or closures c (record {
  parameters = nil;
  body = nil;
  compiled_body = nil;
  compilation_epoch = 0;
  environment = none;
})

-- `LT_NIL` as a word, the kind of an environment that no call has made
abbrev pub nil_word : ℕ
nil_word = 0x80 * 2 ^ 56

module _ (symbols : Symbols) where
  -- `defaultable_parameter_name` of src/classes/Closure.c
  unfoldable pub compiler_parameter_name : Value → Value
  compiler_parameter_name nil = nil
  compiler_parameter_name (atom n) = if symbols.symbol_p n then atom n else nil
  compiler_parameter_name (pair name tail) = name

  -- `bind_compiler_parameter_shadow`
  unfoldable pub shadow : ℕ → Value → Heap → Heap
  shadow target symbol heap = elim (symbol_word symbols symbol) [
    | none ↦ heap
    | some name ↦ Environment.bind target name nil 0 heap
  ]

  -- The loop of `bind_compiler_parameter_shadows` behind `:key`.
  unfoldable pub shadow_keywords : ℕ → Value → Heap → Heap
  unfolding compiler_parameter_name shadow
  shadow_keywords target nil heap = heap
  shadow_keywords target (atom n) heap = heap
  shadow_keywords target (pair parameter cursor) heap =
      shadow_keywords target cursor (shadow target (compiler_parameter_name parameter) heap)

  -- What follows `:rest` there.
  unfoldable pub shadow_rest : ℕ → Value → Heap → Heap
  unfolding shadow
  shadow_rest target nil heap = heap
  shadow_rest target (atom n) heap = heap
  shadow_rest target (pair name tail) heap = shadow target name heap

  -- `bind_compiler_parameter_shadows`
  unfoldable pub shadow_parameters : ℕ → Bool → Value → Heap → Heap
  unfolding compiler_parameter_name shadow shadow_keywords shadow_rest
  shadow_parameters target optional nil heap = heap
  shadow_parameters target optional (atom n) heap = shadow target (atom n) heap
  shadow_parameters target optional (pair parameter cursor) heap =
      elim (kind_of symbols parameter) [
        | optional_marker ↦ shadow_parameters target true cursor heap
        | key_marker ↦ shadow_keywords target cursor heap
        | rest_marker ↦ shadow_rest target cursor heap
        | plain ↦
            shadow_parameters target optional cursor (
              shadow target (if optional then compiler_parameter_name parameter else parameter)
                heap)
      ]

  module _ {R : Type 0}
      (fold eval : Value → ℕ → State (Store R) → Outcome (State (Store R)) Value) where
    -- `compile_closure_body`
    unfoldable pub compile_closure_body :
        ℕ → Value → State (Store R) → Outcome (State (Store R)) Value
    compile_closure_body target nil s = Outcome.returns nil s
    compile_closure_body target (atom n) s = Outcome.raises Error.body_must_be_proper s
    compile_closure_body target (pair form cursor) s = bind (fold form target s) (λ folded s1.
        bind (compile_closure_body target cursor s1) (λ rest. Outcome.returns (pair folded rest)))

    -- The end of `compile_closure`: the body and the epoch are stored in the closure.
    abbrev pub store_compiled : ℕ → Value → ℕ → State (Store R) → State (Store R)
    store_compiled c compiled epoch s = (
      s.0,
      (
        set s.1.0 c
            (record (closure_at s.1.0 c) { compiled_body = compiled; compilation_epoch = epoch }),
        s.1.1,
      ),
    )

    -- `compile_closure`; the epoch is read before the compilation.
    unfoldable pub compile_closure : ℕ → State (Store R) → Outcome (State (Store R)) Unit
    unfolding shadow_parameters compile_closure_body
    compile_closure c s =
        let closure = closure_at s.1.0 c in
        let made = new closure.environment nil_word nil s.0 in
        let shadowed = shadow_parameters made.0 false closure.parameters made.1 in
        bind (compile_closure_body made.0 closure.body (shadowed, s.1))
          (λ compiled s1. Outcome.returns tt (store_compiled c compiled s.0.compilation_epoch s1))

    -- `LT_Closure_compiled_body`
    unfoldable pub compiled_body_of : ℕ → State (Store R) → Outcome (State (Store R)) Value
    unfolding compile_closure
    compiled_body_of c s =
        if (closure_at s.1.0 c).compilation_epoch == s.0.compilation_epoch
        then Outcome.returns (closure_at s.1.0 c).compiled_body s
        else bind (compile_closure c s)
            (λ u s1. Outcome.returns (closure_at s1.1.0 c).compiled_body s1)

    -- `apply_closure`
    unfoldable pub apply_closure :
        ℕ → Value → ℕ → Value → State (Store R) → Outcome (State (Store R)) Value
    unfolding bind_closure_parameters compiled_body_of eval_sequence_from
    apply_closure c arguments kind context s =
        let closure = closure_at s.1.0 c in
        let made = new closure.environment kind context s.0 in
        bind
          (bind_closure_parameters symbols eval made.0 closure.parameters arguments (made.1, s.1))
          (λ u s1.
            bind (compiled_body_of c s1) (λ body. eval_sequence_from symbols eval made.0 nil body))
