-- ===== src/Quasiquote/Inert.antt =====
-- Templates that the expansion leaves as they are.
use list_talk.Common.{
  ℕ, zero, suc, ◌+◌, ◌-◌, ◌≤◌, ◌≡◌, refl, ap, ◌∙◌, Bool, true, false, Option, none, some, List, [],
  ◌∷◌, ◌++◌, ◌==◌, arith,
}
use list_talk.ListOps.{Value, nil, pair, atom, from_list_with_rest}
use list_talk.ListOps.Iteration.{Outcome}
use list_talk.Quasiquote.{
  Operator, unquote, unquote_splicing, quasiquote, single_argument, weight, operator_of, walk,
  walk_items, quasiquote_value,
}

-- Whether a value is looked at as a template or as the rest of a template's elements.
pub data Place : Type 0 where
  template elements : Place

module _ (named : ℕ → Option Operator) where
  -- No `unquote` or `unquote-splicing` of the value is as deep as the `quasiquote`s around it, of
  -- which there are `d`.
  pub data Inert : Place → ℕ → Value → Type 0 where
    inert_nil : (p : Place) (d : ℕ) → Inert p d nil
    inert_atom : (p : Place) (d n : ℕ) → Inert p d (atom n)
    inert_elements :
        (d : ℕ) (a r : Value)
        → Inert Place.template d a
        → Inert Place.elements d r
        → Inert Place.elements d (pair a r)
    inert_list :
        (d : ℕ) (a r : Value)
        → operator_of named a ≡ none
        → Inert Place.elements d (pair a r)
        → Inert Place.template d (pair a r)
    inert_quasiquote :
        (d : ℕ) (a x : Value)
        → operator_of named a ≡ some quasiquote
        → Inert Place.template (d + 1) x
        → Inert Place.template d (pair a (pair x nil))
    inert_unquote :
        (d : ℕ) (a x : Value)
        → operator_of named a ≡ some unquote
        → Inert Place.template (suc d) x
        → Inert Place.template (suc (suc d)) (pair a (pair x nil))
    inert_splicing :
        (d : ℕ) (a x : Value)
        → operator_of named a ≡ some unquote_splicing
        → Inert Place.template (suc d) x
        → Inert Place.template (suc (suc d)) (pair a (pair x nil))

  deep : (d : ℕ) → (suc (suc d) == 1) ≡ false
  deep d = ground arith

  outside : (d : ℕ) → suc (suc d) - 1 ≡ suc d
  outside d = omega arith

  pub weight_least : (v : Value) → 3 ≤ weight v
  unfolding weight
  weight_least nil = omega arith
  weight_least (atom n) = omega arith
  weight_least (pair a d) = omega (arith, weight_least a, weight_least d)

  module _ {S : Type 0} (eval : Value → S → Outcome S Value) where
    walk_atom :
        (fuel n d : ℕ) (c : Bool) (s : S)
        → 1 ≤ fuel
        → walk named eval fuel (atom n) d c s ≡ Outcome.returns (atom n, false) s
    unfolding walk
    walk_atom zero n d c s h = absurd (omega arith)
    walk_atom (suc fuel) n d c s h = refl

    -- What the walk of a place does with an inert value.
    unfoldable pub Kept : Place → ℕ → ℕ → Value → Type 0
    Kept Place.template fuel d v =
        weight v ≤ fuel
        → (c : Bool) (s : S) → walk named eval fuel v d c s ≡ Outcome.returns (v, false) s
    Kept Place.elements fuel d v =
        weight v ≤ suc fuel
        → (b : List Value) (s : S)
        → walk_items named eval fuel b v d s ≡ Outcome.returns (from_list_with_rest b v, false) s

    from_list-step :
        (b : List Value) (a r : Value)
        → from_list_with_rest (b ++ (a ∷ [])) r ≡ from_list_with_rest b (pair a r)
    from_list-step [] a r = refl
    from_list-step (x ∷ b) a r = ap (pair x) (from_list-step b a r)

    pub Inert-Kept : (fuel : ℕ) (p : Place) (d : ℕ) (v : Value) → Inert p d v → Kept p fuel d v
    unfolding Kept walk walk_items weight single_argument
    Inert-Kept zero Place.template d v i = λ h. absurd (omega (arith, weight_least v))
    Inert-Kept zero Place.elements d v i = λ h. absurd (omega (arith, weight_least v))
    Inert-Kept (suc fuel) _ _ _ (inert_nil Place.template d) = λ h c s. refl
    Inert-Kept (suc fuel) _ _ _ (inert_nil Place.elements d) = λ h b s. refl
    Inert-Kept (suc fuel) _ _ _ (inert_atom Place.template d n) = λ h c s. refl
    Inert-Kept (suc fuel) _ _ _ (inert_atom Place.elements d n) =
        λ h b s. rw (walk_atom fuel n d false s (omega arith))
    Inert-Kept (suc fuel) _ _ _ (inert_elements d a r i j) = λ h b s.
        rw (Inert-Kept fuel Place.template d a i (omega (arith, weight_least r)) true s) (
          Inert-Kept fuel Place.elements d r j (omega (arith, weight_least a)) (b ++ (a ∷ [])) s
          ∙ ap (λ v. Outcome.returns (v, false) s) (from_list-step b a r))
    Inert-Kept (suc fuel) _ _ _ (inert_list d a r o i) =
        λ h c s. rw (o, walk) (Inert-Kept fuel Place.elements d (pair a r) i (omega arith) [] s)
    Inert-Kept (suc fuel) _ _ _ (inert_quasiquote d a x o i) = λ h c s.
        rw (o, walk)
          (rw (Inert-Kept fuel Place.template (d + 1) x i (omega (arith, weight_least a)) false s))
    Inert-Kept (suc fuel) _ _ _ (inert_unquote d a x o i) = λ h c s. rw (
      o,
      walk,
      single_argument,
      deep d,
      outside d,
      Inert-Kept fuel Place.template (suc d) x i (omega (arith, weight_least a)) false s,
    )
    Inert-Kept (suc fuel) _ _ _ (inert_splicing d a x o i) = λ h c s. rw (
      o,
      walk,
      single_argument,
      deep d,
      outside d,
      Inert-Kept fuel Place.template (suc d) x i (omega (arith, weight_least a)) false s,
    )

    -- `LT_quasiquote` answers a template that is inert at depth 1 as it is, without a call of the
    -- evaluator: constants, quoted templates with their own `unquote`s, and all nestings of them.
    pub quasiquote_value-Inert :
        (v : Value) (s : S)
        → Inert Place.template 1 v
        → quasiquote_value named eval true v s ≡ Outcome.returns v s
    unfolding quasiquote_value Kept
    quasiquote_value-Inert v s i =
        rw (quasiquote_value, Inert-Kept (weight v) Place.template 1 v i (omega arith) false s)
