-- ===== src/Closure/Scope.antt =====
-- The parameters of a closure as its body sees them (src/vm/eval.c, src/classes/Environment.c).
use list_talk.Common.{
  ℕ, suc, ◌<◌, true, false, List, [], ◌∷◌, Option, none, some, ◌==◌, ◌≡◌, refl, sym, ◌∙◌, ap, arith,
  if◌then◌else◌, length, map, All, length-append,
}
use mathlib.Core.Path.{ap₂}
use list_talk.ListOps.{Value, atom, Error, from_list}
use list_talk.ListOps.Iteration.{Outcome}
use list_talk.Hash.{at}
use list_talk.Hash.Keys.{pointer_key}
use list_talk.Environment.{Binding, Heap, fresh, binding_at, new, lookup_from, lookup}
use list_talk.Environment.Scopes.{
  IsOlder, AreScopes, or_else, nearest, lookup_from-nearest, binding_at-init,
}
use list_talk.Environment.Growth.{
  lookup_rounds, lookup_step, grown, grown-AreScopes, new_at, lookup_from-grown,
}
use list_talk.Environment.Arguments.{argument_of, bind_each, bind_each-Given, nearest_older}
use list_talk.Closure.{Symbols, plain, kind_of, symbol_word, keyword_marker_p}
use list_talk.Closure.Parameters.{
  State, bind_in, bind_dotted, bind_parameters, bind_closure_parameters,
}

abbrev pub parameter_list : List ℕ → Value
parameter_list ps = from_list (map (λ p. atom p) ps)

-- A required parameter: a symbol that is no keyword.
abbrev pub IsPlain : Symbols → ℕ → Type 0
IsPlain symbols p = (symbols.symbol_p p ≡ true) × (symbols.in_keyword_package p ≡ false)

module _ (symbols : Symbols) {S : Type 0}
    (eval : Value → ℕ → State S → Outcome (State S) Value) where
  kind_of_plain : (p : ℕ) → IsPlain symbols p → kind_of symbols (atom p) ≡ plain
  unfolding kind_of keyword_marker_p
  kind_of_plain p (s, k) = rw (s, k) refl

  module _ (e : ℕ) where
    bind_parameters-arity :
        (ps : List ℕ) (arguments : List Value) (s : State S)
        → All (IsPlain symbols) ps
        → bind_parameters symbols eval e false (parameter_list ps) (from_list arguments) s ≡ (
            if length ps == length arguments
            then Outcome.returns tt (bind_each e ps arguments s.0, s.1)
            else Outcome.raises Error.arity_mismatch (bind_each e ps arguments s.0, s.1))
    unfolding bind_parameters bind_dotted bind_each
    bind_parameters-arity [] [] s h = refl
    bind_parameters-arity [] (a ∷ arguments) s h =
        let more : (0 == suc (length arguments)) ≡ false = ground arith in rw more refl
    bind_parameters-arity (p ∷ ps) [] s (hp, h) =
        let more : (suc (length ps) == 0) ≡ false = ground arith in
        rw (kind_of_plain p hp, bind_parameters, more) refl
    bind_parameters-arity (p ∷ ps) (a ∷ arguments) s (hp, h) =
        let rest = bind_parameters-arity ps arguments (bind_in e p a s) h in
        let same : (suc (length ps) == suc (length arguments)) ≡ (length ps == length arguments) =
          ground arith in
        rw (kind_of_plain p hp, hp.0, bind_parameters, same) rest

    parameter_list_word : (ps : List ℕ) → symbol_word symbols (parameter_list ps) ≡ none
    parameter_list_word [] = refl
    parameter_list_word (p ∷ ps) = refl

    -- A closure whose parameters are all required gives each its argument, in order, and ends in the
    -- arity error, behind the bindings that were possible, when there are more or fewer arguments.
    pub bind_closure_parameters-arity :
        (ps : List ℕ) (arguments : List Value) (s : State S)
        → All (IsPlain symbols) ps
        → bind_closure_parameters symbols eval e (parameter_list ps) (from_list arguments) s ≡ (
            if length ps == length arguments
            then Outcome.returns tt (bind_each e ps arguments s.0, s.1)
            else Outcome.raises Error.arity_mismatch (bind_each e ps arguments s.0, s.1))
    unfolding bind_closure_parameters
    bind_closure_parameters-arity ps arguments s h =
        rw (parameter_list_word ps, bind_closure_parameters)
          (bind_parameters-arity ps arguments s h)

-- How the environment of an application reads a symbol: a parameter is its argument, and any other
-- symbol what the closure's environment reads.
pub record Lexical (heap : Heap) (closed : Option ℕ) (ps : List ℕ) (arguments : List Value)
    (after : Heap) (older : ℕ) : Type 0 where
  pub scopes : AreScopes after.environments
  pub inner :
      (q : ℕ)
      → lookup after (length heap.environments) q
        ≡ or_else
            (argument_of ps arguments q)
            (lookup_from (length heap.environments) heap.environments closed q)
  pub outer : (q : ℕ) → lookup after older q ≡ lookup heap older q

or_else_right : (b : Option Binding) → or_else b none ≡ b
or_else_right none = refl
or_else_right (some x) = refl

pub bind_each-Lexical :
    (heap : Heap) (closed : Option ℕ) (kind : ℕ) (context : Value) (ps : List ℕ)
    (arguments : List Value) (older : ℕ)
    → AreScopes heap.environments
    → IsOlder closed (length heap.environments)
    → older < length heap.environments
    → Lexical heap closed ps arguments
        (bind_each (length heap.environments) ps arguments (new closed kind context heap).1)
        older
unfolding new lookup
bind_each-Lexical heap closed kind context ps arguments older h known l =
    let environments = heap.environments in
    let e = length environments in
    let made = grown environments h closed kind context known in
    let made_scopes = grown-AreScopes environments h closed kind context known in
    let made_heap = (new closed kind context heap).1 in
    let size : length made ≡ suc e =
      omega (arith, length-append environments (fresh closed kind context ∷ [])) in
    let done = bind_each-Given e ps arguments made_heap made_scopes (omega (arith, size)) in
    let after = (bind_each e ps arguments made_heap).environments in
    let at_new = new_at environments h closed kind context known in
    let same : (n : ℕ) (cursor : Option ℕ) (q : ℕ)
        → IsOlder cursor e
        → lookup_from n after cursor q ≡ lookup_from n environments cursor q =
      λ n cursor q o.
        lookup_from-nearest n after cursor q
        ∙ (ap (λ es. nearest (λ a. binding_at after a q) es) (done.chains n cursor)
            ∙ (nearest_older made made_scopes (λ a. binding_at after a q) (λ a. binding_at made a q)
                  e (omega (arith, size)) (λ x l. done.others x q (ground arith)) n cursor o
                ∙ (sym (lookup_from-nearest n made cursor q)
                    ∙ lookup_from-grown environments h closed kind context known n cursor q o))) in
    record {
      scopes = done.scopes;
      inner = λ q.
          ap (λ n. lookup_from n after (some e) q) (done.size ∙ size)
          ∙ (lookup_step e after e q
              ∙ ap₂ or_else
                  (done.own q
                    ∙ (ap (λ b. or_else (argument_of ps arguments q) b)
                          (ap (λ x. at none x.bindings q) at_new ∙ binding_at-init q)
                        ∙ or_else_right (argument_of ps arguments q)))
                  (ap (λ p. lookup_from e after p q) (done.parents e ∙ ap (λ x. x.parent) at_new)
                    ∙ same e closed q known));
      outer = λ q.
          ap (λ n. lookup_from n after (some older) q) (done.size ∙ size)
          ∙ (same (suc e) (some older) q l ∙ lookup_rounds heap older q (suc e) h l (omega arith));
    }
