-- ===== src/Environment/Growth.antt =====
-- New environments: `LT_Environment_new` (src/classes/Environment.c) beside those that were there.
use list_talk.Common.{
  ℕ, zero, suc, ◌<◌, ◌≤◌, List, [], ◌∷◌, ◌++◌, Option, none, some, ◌==◌, ◌≡◌, refl, sym, ◌∙◌, ap,
  arith, if◌then◌else◌, length, get_or, length-append, Bool-cases, Option-cases, inl, inr,
}
use list_talk.ListOps.{Value, nil}
use mathlib.Core.Path.{ap₂}
use list_talk.Hash.{at}
use list_talk.Hash.Refine.{init_lem}
use list_talk.Hash.Keys.{pointer_key}
use list_talk.Environment.{
  Binding, Environment, Heap, fresh, environment_at, binding_at, new, lookup_from, lookup,
  context_from, invocation_context_of_kind,
}
use list_talk.Environment.Scopes.{
  IsOlder, IsOlder-le, AreScopes, or_else, nearest, lookup_from-nearest, chain_enough,
  binding_at-init,
}

pub lookup_rounds :
    (heap : Heap) (e symbol n : ℕ)
    → AreScopes heap.environments
    → e < length heap.environments
    → length heap.environments ≤ n
    → lookup_from n heap.environments (some e) symbol ≡ lookup heap e symbol
unfolding lookup
lookup_rounds heap e symbol n h inside enough =
    let environments = heap.environments in
    let bound : ℕ → Option Binding = λ a. binding_at environments a symbol in
    lookup_from-nearest n environments (some e) symbol
    ∙ (ap (λ es. nearest bound es)
          (chain_enough environments h n (length environments) (some e) (omega arith) inside inside)
        ∙ sym (lookup_from-nearest (length environments) environments (some e) symbol))

-- The loop of `LT_Environment_lookup` ends with a result: `none` where the cursor is null, or the
-- binding of the environment at the cursor, and it goes on at the parent of an environment without one.
pub data Halts (environments : List Environment) (symbol : ℕ)
    : Option ℕ → Option Binding → Type 0 where
  ended : Halts environments symbol none none
  found :
      (e : ℕ) (b : Binding)
      → binding_at environments e symbol ≡ some b
      → Halts environments symbol (some e) (some b)
  moves :
      (e : ℕ) (result : Option Binding)
      → binding_at environments e symbol ≡ none
      → Halts environments symbol (environment_at environments e).parent result
      → Halts environments symbol (some e) result

lookup_from-Halts :
    (environments : List Environment) (symbol : ℕ)
    → AreScopes environments
    → (n : ℕ) (cursor : Option ℕ) → IsOlder cursor n
    → IsOlder cursor (length environments)
    → Halts environments symbol cursor (lookup_from n environments cursor symbol)
unfolding lookup_from
lookup_from-Halts environments symbol h zero none hn hl = ended
lookup_from-Halts environments symbol h zero (some e) hn hl = absurd (omega arith)
lookup_from-Halts environments symbol h (suc n) none hn hl = ended
lookup_from-Halts environments symbol h (suc n) (some e) hn hl =
    let up = (environment_at environments e).parent in
    let older = (h e hl).older in
    elim (Option-cases (binding_at environments e symbol)) [
      | inl k ↦
          rw (k, lookup_from)
            (moves e (lookup_from n environments up symbol) k (
              lookup_from-Halts environments symbol h n up (IsOlder-le up e n older (omega arith))
                (IsOlder-le up e (length environments) older (omega arith))))
      | inr (b, k) ↦ rw (k, lookup_from) (found e b k)
    ]

-- The loop of `LT_Environment_lookup` ends, whatever the symbol, where parents are older than their
-- children, and the lookup answers its result.
pub lookup-Halts :
    (heap : Heap) (e symbol : ℕ)
    → AreScopes heap.environments
    → e < length heap.environments
    → Halts heap.environments symbol (some e) (lookup heap e symbol)
unfolding lookup
lookup-Halts heap e symbol h inside =
    lookup_from-Halts heap.environments symbol h (length heap.environments) (some e) inside inside

pub lookup_step :
    (n : ℕ) (environments : List Environment) (e symbol : ℕ)
    → lookup_from (suc n) environments (some e) symbol
      ≡ or_else
          (binding_at environments e symbol)
          (lookup_from n environments (environment_at environments e).parent symbol)
unfolding lookup_from
lookup_step n environments e symbol = elim (Option-cases (binding_at environments e symbol)) [
  | inl k ↦ rw (k, lookup_from) refl
  | inr (b, k) ↦ rw (k, lookup_from) refl
]

get_or_append {ℓ} :
    {A : Type ℓ}
    → (xs : List A) (x d : A) (i : ℕ) → i < length xs
    → get_or (xs ++ (x ∷ [])) i d ≡ get_or xs i d
get_or_append [] x d i h = absurd (omega arith)
get_or_append (y ∷ xs) x d zero h = refl
get_or_append (y ∷ xs) x d (suc i) h = get_or_append xs x d i (omega arith)

get_or_end {ℓ} : {A : Type ℓ} → (xs : List A) (x d : A) → get_or (xs ++ (x ∷ [])) (length xs) d ≡ x
get_or_end [] x d = refl
get_or_end (y ∷ xs) x d = get_or_end xs x d

module _ (environments : List Environment) (scopes : AreScopes environments) (parent : Option ℕ)
    (kind : ℕ) (context : Value) (known : IsOlder parent (length environments)) where
  abbrev pub grown : List Environment
  grown = environments ++ (fresh parent kind context ∷ [])

  old_at :
      (a : ℕ) → a < length environments → environment_at grown a ≡ environment_at environments a
  old_at a h = get_or_append environments (fresh parent kind context) (fresh none 0 nil) a h

  pub new_at : environment_at grown (length environments) ≡ fresh parent kind context
  new_at = get_or_end environments (fresh parent kind context) (fresh none 0 nil)

  pub grown-AreScopes : AreScopes grown
  grown-AreScopes a h = elim (Bool-cases (a == length environments)) [
    | inl e ↦
        let same : a ≡ length environments = ground arith in
        rw same (record {
          valid = rw new_at (init_lem {K = ℕ} {V = Option Binding}).0;
          older = rw new_at known;
        })
    | inr e ↦
        let old : a < length environments =
          ground (arith, length-append environments (fresh parent kind context ∷ [])) in
        record {
          valid = rw (old_at a old) (scopes a old).valid;
          older = rw (old_at a old) (scopes a old).older;
        }
  ]

  pub lookup_from-grown :
      (n : ℕ) (cursor : Option ℕ) (symbol : ℕ)
      → IsOlder cursor (length environments)
      → lookup_from n grown cursor symbol ≡ lookup_from n environments cursor symbol
  unfolding lookup_from
  lookup_from-grown zero cursor symbol h = refl
  lookup_from-grown (suc n) none symbol h = refl
  lookup_from-grown (suc n) (some a) symbol h =
      let up = (environment_at environments a).parent in
      let rest =
        lookup_from-grown n up symbol
          (IsOlder-le up a (length environments) (scopes a h).older (omega arith)) in
      lookup_step n grown a symbol
      ∙ (ap₂ or_else (ap (λ x. at none x.bindings symbol) (old_at a h))
            (ap (λ x. lookup_from n grown x.parent symbol) (old_at a h) ∙ rest)
          ∙ sym (lookup_step n environments a symbol))

  context_from-grown :
      (n : ℕ) (cursor : Option ℕ) (k : ℕ)
      → IsOlder cursor (length environments)
      → context_from n grown cursor k ≡ context_from n environments cursor k
  unfolding context_from
  context_from-grown zero cursor k h = refl
  context_from-grown (suc n) none k h = refl
  context_from-grown (suc n) (some a) k h =
      let up = (environment_at environments a).parent in
      let rest =
        context_from-grown n up k
          (IsOlder-le up a (length environments) (scopes a h).older (omega arith)) in
      rw (old_at a h, rest) refl

-- `LT_Environment_new` makes an environment that finds what its parent finds, and whose context is
-- the one given for its own kind and its parent's for every other. Every environment that was there
-- finds what it found before.
pub new-lookup :
    (heap : Heap) (parent : Option ℕ) (kind : ℕ) (context : Value) (a symbol k : ℕ)
    → AreScopes heap.environments
    → IsOlder parent (length heap.environments)
    → a < length heap.environments
    → AreScopes (new parent kind context heap).1.environments
      × ((lookup (new parent kind context heap).1 (new parent kind context heap).0 symbol
            ≡ lookup_from (length heap.environments) heap.environments parent symbol)
          × ((invocation_context_of_kind
                  (new parent kind context heap).1
                  (new parent kind context heap).0
                  k
                ≡ (if kind == k
                    then context
                    else context_from (length heap.environments) heap.environments parent k))
              × (lookup (new parent kind context heap).1 a symbol ≡ lookup heap a symbol)))
unfolding new lookup invocation_context_of_kind
new-lookup heap parent kind context a symbol k h known inside =
    let environments = heap.environments in
    let n = length environments in
    let after = grown environments h parent kind context known in
    let size : length after ≡ suc n =
      omega (arith, length-append environments (fresh parent kind context ∷ [])) in
    let at_new = new_at environments h parent kind context known in
    (
      grown-AreScopes environments h parent kind context known,
      (
        ap (λ m. lookup_from m after (some n) symbol) size
            ∙ (lookup_step n after n symbol
                ∙ (ap₂ or_else (ap (λ x. at none x.bindings symbol) at_new ∙ binding_at-init symbol)
                    (ap (λ x. lookup_from n after x.parent symbol) at_new
                      ∙ lookup_from-grown environments h parent kind context known n parent symbol
                          known))),
        (
          ap (λ m. context_from m after (some n) k) size
              ∙ ap₂
                  (λ (x : Environment) (rest : Value).
                    if x.invocation_context_kind == k then x.invocation_context_data else rest)
                  at_new
                  (ap (λ x. context_from n after x.parent k) at_new
                    ∙ context_from-grown environments h parent kind context known n parent k known),
          ap (λ m. lookup_from m after (some a) symbol) size
              ∙ (lookup_from-grown environments h parent kind context known (suc n) (some a) symbol
                    inside
                  ∙ lookup_rounds heap a symbol (suc n) h inside (omega arith)),
        ),
      ),
    )
