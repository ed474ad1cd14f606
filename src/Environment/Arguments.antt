-- ===== src/Environment/Arguments.antt =====
-- Several bindings of one environment, in a row (src/classes/Environment.c): what the parameters
-- of a closure are given.
use list_talk.Common.{
  ℕ, zero, suc, ◌<◌, ◌≤◌, false, List, [], ◌∷◌, Option, none, some, ◌==◌, ◌≡◌, refl, sym, ◌∙◌, ap,
  arith, ==_refl, if◌then◌else◌, length, Bool-cases, inl, inr,
}
use mathlib.Core.Path.{ap₂}
use list_talk.ListOps.{Value}
use list_talk.Hash.Keys.{pointer_key}
use list_talk.Environment.{Binding, Environment, Heap, environment_at, binding_at, bind}
use list_talk.Environment.Scopes.{
  IsOlder, IsOlder-le, AreScopes, chain, or_else, nearest, chain-write, write_parent, length-write,
  binding_at-write, write-AreScopes,
}

abbrev pub argument : Value → Binding
argument value = record { value = value; flags = 0 }

-- What a name is bound to, the last of its parameters deciding.
abbrev pub argument_of : List ℕ → List Value → ℕ → Option Binding
argument_of [] arguments q = none
argument_of (p ∷ parameters) [] q = none
argument_of (p ∷ parameters) (a ∷ arguments) q =
    or_else (argument_of parameters arguments q) (if p == q then some (argument a) else none)

-- The bindings one after the other, up to the end of the shorter list.
unfoldable pub bind_each : ℕ → List ℕ → List Value → Heap → Heap
bind_each e [] arguments heap = heap
bind_each e (p ∷ parameters) [] heap = heap
bind_each e (p ∷ parameters) (a ∷ arguments) heap =
    bind_each e parameters arguments (bind e p a 0 heap)

or_else_assoc : (a b c : Option Binding) → or_else a (or_else b c) ≡ or_else (or_else a b) c
or_else_assoc none b c = refl
or_else_assoc (some x) b c = refl

module _ (e : ℕ) where
  -- What the bindings change.
  pub record Given (parameters : List ℕ) (arguments : List Value) (before after : List Environment)
      : Type 0 where
    pub scopes : AreScopes after
    pub size : length after ≡ length before
    pub chains : (n : ℕ) (cursor : Option ℕ) → chain n after cursor ≡ chain n before cursor
    pub parents : (a : ℕ) → (environment_at after a).parent ≡ (environment_at before a).parent
    pub own :
        (q : ℕ)
        → binding_at after e q
          ≡ or_else (argument_of parameters arguments q) (binding_at before e q)
    pub others : (a q : ℕ) → (e == a) ≡ false → binding_at after a q ≡ binding_at before a q

  Given-nothing :
      (parameters : List ℕ) (arguments : List Value) (environments : List Environment)
      → ((q : ℕ) → argument_of parameters arguments q ≡ none)
      → AreScopes environments
      → Given parameters arguments environments environments
  Given-nothing parameters arguments environments none_given h = record {
    scopes = h;
    size = refl;
    chains = λ n cursor. refl;
    parents = λ a. refl;
    own = λ q. ap (λ o. or_else o (binding_at environments e q)) (sym (none_given q));
    others = λ a q d. refl;
  }

  pub bind_each-Given :
      (parameters : List ℕ) (arguments : List Value) (heap : Heap)
      → AreScopes heap.environments
      → e < length heap.environments
      → Given parameters arguments heap.environments
          (bind_each e parameters arguments heap).environments
  unfolding bind_each bind
  bind_each-Given [] arguments heap h inside =
      Given-nothing [] arguments heap.environments (λ q. refl) h
  bind_each-Given (p ∷ parameters) [] heap h inside =
      Given-nothing (p ∷ parameters) [] heap.environments (λ q. refl) h
  bind_each-Given (p ∷ parameters) (a ∷ arguments) heap h inside =
      let before = heap.environments in
      let b = argument a in
      let size = length-write before e p b in
      let rest =
        bind_each-Given parameters arguments (bind e p a 0 heap)
          (write-AreScopes before e p b h inside) (omega (arith, size)) in
      record {
        scopes = rest.scopes;
        size = rest.size ∙ size;
        chains = λ n cursor. rest.chains n cursor ∙ chain-write before e p b n cursor;
        parents = λ x. rest.parents x ∙ write_parent before e p b x;
        own = λ q.
            rest.own q
            ∙ (ap (λ o. or_else (argument_of parameters arguments q) o)
                  (binding_at-write before e p b h inside e q ∙ elim (Bool-cases (p == q)) [
                    | inl k ↦ rw (==_refl e, k) refl
                    | inr k ↦ rw (==_refl e, k) refl
                  ])
                ∙ or_else_assoc (argument_of parameters arguments q)
                    (if p == q then some b else none) (binding_at before e q));
        others =
            λ x q d. rest.others x q d ∙ (binding_at-write before e p b h inside x q ∙ rw d refl);
      }

-- Older environments do not see the difference.
pub nearest_older :
    (environments : List Environment)
    → AreScopes environments
    → (f g : ℕ → Option Binding) (e : ℕ) → e ≤ length environments
    → ((x : ℕ) → x < e → f x ≡ g x)
    → (n : ℕ) (cursor : Option ℕ) → IsOlder cursor e
    → nearest f (chain n environments cursor) ≡ nearest g (chain n environments cursor)
nearest_older environments h f g e le same zero cursor o = refl
nearest_older environments h f g e le same (suc n) none o = refl
nearest_older environments h f g e le same (suc n) (some a) o =
    let up = (environment_at environments a).parent in
    let older = (h a (omega arith)).older in
    ap₂ or_else (same a o)
      (nearest_older environments h f g e le same n up (IsOlder-le up a e older (omega arith)))
