-- ===== src/Closure/Application.antt =====
-- An application of a closure (`apply_closure` of src/vm/eval.c).
use list_talk.Common.{
  ℕ, ◌<◌, true, false, ◌&&◌, List, [], ◌∷◌, Option, none, ◌==◌, ◌≡◌, refl, ◌∙◌, ap, arith, ==_iff,
  if◌then◌else◌, length, All, length-append, Bool-cases, inl, inr,
}
use list_talk.ListOps.{Value, nil, from_list}
use list_talk.ListOps.Iteration.{Outcome, returns, raises, bind}
use list_talk.Hash.{at}
use list_talk.Hash.Keys.{pointer_key}
use list_talk.Environment
use list_talk.Environment.{
  Binding, Environment, Heap, constant_p, was_constant, fresh, binding_at, write, new,
}
use list_talk.Environment.Scopes.{
  IsOlder, AreScopes, binding_at-init, binding_at-write, write-AreScopes, length-write,
}
use list_talk.Environment.Growth.{grown-AreScopes, new_at}
use list_talk.Environment.Arguments.{argument, bind_each}
use list_talk.Closure.{Symbols}
use list_talk.Closure.Parameters.{State, bind_closure_parameters, eval_sequence_from}
use list_talk.Closure.Compile.{Store, closure_at, compile_closure, compiled_body_of, apply_closure}
use list_talk.Closure.Scope.{
  parameter_list, IsPlain, bind_closure_parameters-arity, Lexical, bind_each-Lexical,
}

unflagged : (value : Value) → constant_p (argument value) ≡ false
unfolding constant_p
unflagged value = refl

-- Bindings of an environment without constants leave the epoch.
bind_each_epoch :
    (e : ℕ) (ps : List ℕ) (arguments : List Value) (heap : Heap)
    → AreScopes heap.environments
    → e < length heap.environments
    → ((q : ℕ) → was_constant (binding_at heap.environments e q) ≡ false)
    → (bind_each e ps arguments heap).compilation_epoch ≡ heap.compilation_epoch
unfolding bind_each Environment.bind
bind_each_epoch e [] arguments heap h inside free = refl
bind_each_epoch e (p ∷ ps) [] heap h inside free = refl
bind_each_epoch e (p ∷ ps) (a ∷ arguments) heap h inside free =
    let next = Environment.bind e p a 0 heap in
    let still : (q : ℕ) → was_constant (binding_at next.environments e q) ≡ false = λ q.
      ap was_constant (binding_at-write heap.environments e p (argument a) h inside e q)
      ∙ elim (Bool-cases ((e == e) && (p == q))) [
        | inl k ↦ rw k (unflagged a)
        | inr k ↦ rw k (free q)
      ] in
    bind_each_epoch e ps arguments next
      (write-AreScopes heap.environments e p (argument a) h inside)
      (omega (arith, length-write heap.environments e p (argument a))) still
    ∙ rw (free p) refl

new_epoch :
    (heap : Heap) (closed : Option ℕ) (kind : ℕ) (context : Value) (ps : List ℕ)
    (arguments : List Value)
    → AreScopes heap.environments
    → IsOlder closed (length heap.environments)
    → (bind_each
        (length heap.environments)
        ps
        arguments
        (new closed kind context heap).1).compilation_epoch
      ≡ heap.compilation_epoch
unfolding new
new_epoch heap closed kind context ps arguments h known =
    let environments = heap.environments in
    bind_each_epoch (length environments) ps arguments (new closed kind context heap).1
      (grown-AreScopes environments h closed kind context known)
      (omega (arith, length-append environments (fresh closed kind context ∷ [])))
      (λ q. ap was_constant (
        ap (λ x. at none x.bindings q) (new_at environments h closed kind context known)
        ∙ binding_at-init q))

bind_twice :
    {S A B C : Type 0}
    → (o : Outcome S A) (f : A → S → Outcome S B) (g : B → S → Outcome S C)
    → bind (bind o f) g ≡ bind o (λ a s. bind (f a s) g)
bind_twice (returns a s) f g = refl
bind_twice (raises e s) f g = refl

module _ (symbols : Symbols) {R : Type 0}
    (fold eval : Value → ℕ → State (Store R) → Outcome (State (Store R)) Value) where
  -- The body of a closure in an environment: the one that is stored when its epoch is that of the
  -- heap, and otherwise the one that is stored after a compilation.
  abbrev pub run_body : ℕ → ℕ → State (Store R) → Outcome (State (Store R)) Value
  run_body c e s =
      let closure = closure_at s.1.0 c in
      if closure.compilation_epoch == s.0.compilation_epoch
      then eval_sequence_from symbols eval e nil closure.compiled_body s
      else bind (compile_closure symbols fold eval c s)
          (λ u s1. eval_sequence_from symbols eval e nil (closure_at s1.1.0 c).compiled_body s1)

  compiled_body_of-run_body :
      (c e : ℕ) (s : State (Store R))
      → bind
          (compiled_body_of symbols fold eval c s)
          (λ body. eval_sequence_from symbols eval e nil body)
        ≡ run_body c e s
  unfolding compiled_body_of
  compiled_body_of-run_body c e s =
      let closure = closure_at s.1.0 c in
      elim (Bool-cases (closure.compilation_epoch == s.0.compilation_epoch)) [
        | inl k ↦ rw (k, compiled_body_of) refl
        | inr k ↦
            rw (k, compiled_body_of)
              (bind_twice (compile_closure symbols fold eval c s)
                (λ u s1. Outcome.returns (closure_at s1.1.0 c).compiled_body s1)
                (λ body. eval_sequence_from symbols eval e nil body))
      ]

  -- A closure with required parameters that gets as many arguments makes a new environment and binds
  -- them there: each parameter reads as its argument, every other symbol as what the environment of
  -- the closure reads, an environment that was there before as it did, and the compilation epoch
  -- stays. Then the body runs in the new environment: the compiled body that the closure has, when its
  -- epoch is the compilation epoch, and else the one that a new compilation stores in the closure.
  pub apply_closure-Lexical :
      (ps : List ℕ) (arguments : List Value) (c kind : ℕ) (context : Value) (s : State (Store R))
      (older : ℕ)
      → (closure_at s.1.0 c).parameters ≡ parameter_list ps
      → All (IsPlain symbols) ps
      → length ps ≡ length arguments
      → AreScopes s.0.environments
      → IsOlder (closure_at s.1.0 c).environment (length s.0.environments)
      → older < length s.0.environments
      → (after : Heap) × ((apply_closure symbols fold eval c (from_list arguments) kind context s
            ≡ run_body c (length s.0.environments) (after, s.1))
          × ((after.compilation_epoch ≡ s.0.compilation_epoch)
              × Lexical s.0 (closure_at s.1.0 c).environment ps arguments after older))
  unfolding apply_closure new
  apply_closure-Lexical ps arguments c kind context s older same hp hl h known l =
      let closure = closure_at s.1.0 c in
      let made = new closure.environment kind context s.0 in
      let after = bind_each (length s.0.environments) ps arguments made.1 in
      let enough : (length ps == length arguments) ≡ true =
        (==_iff (length ps) (length arguments)).1 hl in
      let bound = bind_closure_parameters-arity symbols eval made.0 ps arguments (made.1, s.1) hp in
      let ran : bind_closure_parameters symbols eval made.0 closure.parameters (from_list arguments)
            (made.1, s.1)
          ≡ Outcome.returns tt (after, s.1) =
        rw same (rw enough at bound) in
      (
        after,
        (
          rw (ran, apply_closure)
              (compiled_body_of-run_body c (length s.0.environments) (after, s.1)),
          (
            new_epoch s.0 closure.environment kind context ps arguments h known,
            bind_each-Lexical s.0 closure.environment kind context ps arguments older h known l,
          ),
        ),
      )
