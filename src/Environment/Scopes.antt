-- ===== src/Environment/Scopes.antt =====
-- Chains of environments (src/classes/Environment.c), each environment with its own bindings.
use list_talk.Common.{
  ℕ, zero, suc, ◌<◌, ◌≤◌, true, ◌&&◌, List, [], ◌∷◌, Option, none, some, ◌==◌, ◌≡◌, refl, sym, ◌∙◌,
  ap, arith, if◌then◌else◌, length, get_or-set, length-set, ltb, Bool-cases, Option-cases, inl, inr,
}
use mathlib.Core.Option
use mathlib.Core.Path.{ap₂}
use list_talk.ListOps.{nil}
use list_talk.Hash.{InlineHash, init, at, at_put}
use list_talk.Hash.Refine.{IsValid, at-view, at_put-Writes, init_lem}
use list_talk.Hash.Keys.{pointer_key}
use list_talk.Environment.{
  Binding, Environment, fresh, environment_at, binding_at, write, lookup_from,
}

-- The parent of an environment is older.
abbrev pub IsOlder : Option ℕ → ℕ → Type 0
IsOlder none e = Unit
IsOlder (some p) e = p < e

pub record IsScope (environments : List Environment) (e : ℕ) : Type 0 where
  pub valid : IsValid (environment_at environments e).bindings
  pub older : IsOlder (environment_at environments e).parent e

-- What holds of the environments at any time.
abbrev pub AreScopes : List Environment → Type 0
AreScopes environments = (e : ℕ) → e < length environments → IsScope environments e

-- The environments that a lookup goes through.
abbrev pub chain : ℕ → List Environment → Option ℕ → List ℕ
chain zero environments cursor = []
chain (suc fuel) environments none = []
chain (suc fuel) environments (some e) =
    e ∷ chain fuel environments (environment_at environments e).parent

-- The first of the environments that has a binding.
abbrev pub or_else : Option Binding → Option Binding → Option Binding
or_else none b = b
or_else (some binding) b = some binding

abbrev pub nearest : (ℕ → Option Binding) → List ℕ → Option Binding
nearest bound [] = none
nearest bound (e ∷ es) = or_else (bound e) (nearest bound es)

pub lookup_from-nearest :
    (fuel : ℕ) (environments : List Environment) (cursor : Option ℕ) (symbol : ℕ)
    → lookup_from fuel environments cursor symbol
      ≡ nearest (λ e. binding_at environments e symbol) (chain fuel environments cursor)
unfolding lookup_from
lookup_from-nearest zero environments cursor symbol = refl
lookup_from-nearest (suc fuel) environments none symbol = refl
lookup_from-nearest (suc fuel) environments (some e) symbol =
    elim (Option-cases (binding_at environments e symbol)) [
      | inl h ↦
          rw (h, lookup_from)
            (lookup_from-nearest fuel environments (environment_at environments e).parent symbol)
      | inr (b, h) ↦ rw (h, lookup_from) refl
    ]

pub nearest_same :
    (f g : ℕ → Option Binding) (es : List ℕ) → ((e : ℕ) → f e ≡ g e) → nearest f es ≡ nearest g es
nearest_same f g [] h = refl
nearest_same f g (e ∷ es) h = ap₂ or_else (h e) (nearest_same f g es h)

pub IsOlder-le : (cursor : Option ℕ) (n m : ℕ) → IsOlder cursor n → n ≤ m → IsOlder cursor m
IsOlder-le none n m h l = tt
IsOlder-le (some e) n m h l = omega arith

-- More rounds give the same chain.
pub chain_enough :
    (environments : List Environment)
    → AreScopes environments
    → (n m : ℕ) (cursor : Option ℕ) → IsOlder cursor n
    → IsOlder cursor m
    → IsOlder cursor (length environments)
    → chain n environments cursor ≡ chain m environments cursor
chain_enough environments h zero zero cursor hn hm hl = refl
chain_enough environments h zero (suc m) none hn hm hl = refl
chain_enough environments h zero (suc m) (some e) hn hm hl = absurd (omega arith)
chain_enough environments h (suc n) zero none hn hm hl = refl
chain_enough environments h (suc n) zero (some e) hn hm hl = absurd (omega arith)
chain_enough environments h (suc n) (suc m) none hn hm hl = refl
chain_enough environments h (suc n) (suc m) (some e) hn hm hl =
    let parent = (environment_at environments e).parent in
    let older = (h e hl).older in
    ap (λ es. e ∷ es)
      (chain_enough environments h n m parent (IsOlder-le parent e n older (omega arith))
        (IsOlder-le parent e m older (omega arith))
        (IsOlder-le parent e (length environments) older (omega arith)))

-- What the tables say.

pub binding_at-init : (symbol : ℕ) → at none (init {K = ℕ} {V = Option Binding}) symbol ≡ none
binding_at-init symbol =
    let (valid, empty) = init_lem {K = ℕ} {V = Option Binding} in
    at-view init valid symbol none ∙ ap (λ x. Option.get_or x none) (empty symbol)

pub at-at_put :
    (table : InlineHash ℕ (Option Binding))
    → IsValid table
    → (p q : ℕ) (x : Option Binding)
    → at none (at_put table p x) q ≡ (if p == q then x else at none table q)
at-at_put table valid p q x =
    let writes = at_put-Writes table valid p x in
    at-view (at_put table p x) writes.valid q none
    ∙ (ap (λ o. Option.get_or o none) (writes.reads q) ∙ elim (Bool-cases (p == q)) [
      | inl e ↦ rw e refl
      | inr e ↦ rw e (sym (at-view table valid q none))
    ])

-- A write.

module _ (environments : List Environment) (e symbol : ℕ) (b : Binding) where
  abbrev written : Environment
  written = record (environment_at environments e) {
    bindings = at_put (environment_at environments e).bindings symbol (some b);
  }

  pub write_at :
      (a : ℕ)
      → environment_at (write environments e symbol b) a ≡ (
          if (e == a) && ltb e (length environments)
          then written
          else environment_at environments a)
  unfolding write
  write_at a = get_or-set environments e a written (fresh none 0 nil)

  pub write_parent :
      (a : ℕ)
      → (environment_at (write environments e symbol b) a).parent
        ≡ (environment_at environments a).parent
  write_parent a = elim (Bool-cases ((e == a) && ltb e (length environments))) [
    | inl h ↦
        let same : e ≡ a = ground arith in
        rw (write_at a, h) (ap (λ x. (environment_at environments x).parent) same)
    | inr h ↦ rw (write_at a, h) refl
  ]

  pub length-write : length (write environments e symbol b) ≡ length environments
  unfolding write
  length-write = length-set environments e written

  pub chain-write :
      (n : ℕ) (cursor : Option ℕ)
      → chain n (write environments e symbol b) cursor ≡ chain n environments cursor
  chain-write zero cursor = refl
  chain-write (suc n) none = refl
  chain-write (suc n) (some a) =
      ap (λ es. a ∷ es)
        (ap (λ p. chain n (write environments e symbol b) p) (write_parent a)
          ∙ chain-write n (environment_at environments a).parent)

  module _ (scopes : AreScopes environments) (inside : e < length environments) where
    -- A write changes one binding of one environment.
    pub binding_at-write :
        (a q : ℕ)
        → binding_at (write environments e symbol b) a q
          ≡ (if (e == a) && (symbol == q) then some b else binding_at environments a q)
    binding_at-write a q = elim (Bool-cases (e == a)) [
      | inl h ↦
          let same : e ≡ a = ground arith in
          let room : ltb e (length environments) ≡ true = ground arith in
          rw (write_at a, h, room)
            (at-at_put (environment_at environments e).bindings (scopes e inside).valid symbol q
                (some b)
              ∙ ap (λ x. if symbol == q then some b else binding_at environments x q) same)
      | inr h ↦ rw (write_at a, h) refl
    ]

    pub write-AreScopes : AreScopes (write environments e symbol b)
    write-AreScopes a h =
        let before = scopes a (rw length-write at h) in
        record {
          valid = elim (Bool-cases (e == a)) [
            | inl k ↦
                let room : ltb e (length environments) ≡ true = ground arith in
                rw (write_at a, k, room)
                  (at_put-Writes (environment_at environments e).bindings (scopes e inside).valid
                    symbol (some b)).valid
            | inr k ↦ rw (write_at a, k) before.valid
          ];
          older = rw (write_parent a) before.older;
        }

    pub lookup_from-write :
        (n : ℕ) (cursor : Option ℕ) (q : ℕ)
        → lookup_from n (write environments e symbol b) cursor q
          ≡ nearest
              (λ a. if (e == a) && (symbol == q) then some b else binding_at environments a q)
              (chain n environments cursor)
    lookup_from-write n cursor q =
        lookup_from-nearest n (write environments e symbol b) cursor q
        ∙ (ap (λ es. nearest (λ a. binding_at (write environments e symbol b) a q) es)
              (chain-write n cursor)
            ∙ nearest_same (λ a. binding_at (write environments e symbol b) a q)
                (λ a. if (e == a) && (symbol == q) then some b else binding_at environments a q)
                (chain n environments cursor) (λ a. binding_at-write a q))
