-- ===== src/ListOps/Calls.antt =====
-- The loops of the iteration operations against the rows of the lists: the calls they make, in
-- their order, and how they end.
use list_talk.Common.{
  ℕ, suc, ◌≡◌, refl, ap, ◌∙◌, Bool, true, false, Option, none, some, ◌⊎◌, inl, inr, List, [], ◌∷◌,
  length,
}
use mathlib.Core.Path.{fun_ext}
use list_talk.ListOps.{Value, Error}
use list_talk.ListOps.Iteration.{
  Outcome, bind, Collected, ended, improper, arguments, collect_arguments,
}
use list_talk.ListOps.Rows.{
  Spine, values_of, Front, over, front, heads, rows, collect_arguments_lem,
}

pub Front-cases :
    (f : Front)
    → (f ≡ over true) ⊎ ((f ≡ over false) ⊎ ((h : List Value) × (t : List Spine) × (f ≡ front h t)))
Front-cases (over true) = inl refl
Front-cases (over false) = inr (inl refl)
Front-cases (front h t) = inr (inr (h, t, refl))

-- An operation over lists keeps an `A`, calls with the arguments `call` makes of it and a row,
-- goes on or stops as `next` says, and ends with `done`.
pub record Plan (S A B : Type 0) : Type 0 where
  pub call : A → List Value → List Value
  pub next : A → Value → (A → S → Outcome S B) → S → Outcome S B
  pub done : A → B

module _ {S A B : Type 0} (apply : List Value → S → Outcome S Value) (p : Plan S A B) where
  -- One call for each row, in order, each with the state that the one before left; behind the last
  -- row the operation ends, or raises where the list that ended there is not proper.
  unfoldable pub over_rows : A → List (List Value) → Bool → S → Outcome S B
  over_rows a [] true s = Outcome.returns (p.done a) s
  over_rows a [] false s = Outcome.raises Error.expects_proper_lists s
  over_rows a (r ∷ rs) b s = bind (apply (p.call a r) s) (λ v. p.next a v (λ a'. over_rows a' rs b))

  -- A loop with rounds left, as the source writes it.
  unfoldable pub round : (A → List Value → S → Outcome S B) → A → Collected → S → Outcome S B
  round loop a ended s = Outcome.returns (p.done a) s
  round loop a improper s = Outcome.raises Error.expects_proper_lists s
  round loop a (arguments args rest) s =
      bind (apply (p.call a args) s) (λ v. p.next a v (λ a'. loop a' rest))

  module _ (loop : ℕ → A → List Value → S → Outcome S B)
      (rounds : (n : ℕ) (a : A) (cursors : List Value) (s : S)
        → loop (suc n) a cursors s ≡ round (loop n) a (collect_arguments cursors) s) where
    pub loop-rows :
        (xs : List Value) (e : Option ℕ) (ls : List Spine) (a : A) (s : S)
        → loop (suc (length xs)) a (values_of ((xs, e) ∷ ls)) s
          ≡ over_rows a (rows xs e ls).0 (rows xs e ls).1 s
    unfolding over_rows round rows heads
    loop-rows [] none ls a s =
        rounds 0 a (values_of (([], none) ∷ ls)) s
        ∙ ap (λ c. round (loop 0) a c s) (collect_arguments_lem (([], none) ∷ ls))
    loop-rows [] (some n) ls a s =
        rounds 0 a (values_of (([], some n) ∷ ls)) s
        ∙ ap (λ c. round (loop 0) a c s) (collect_arguments_lem (([], some n) ∷ ls))
    loop-rows (x ∷ xs) e ls a s =
        rounds (suc (length xs)) a (values_of ((x ∷ xs, e) ∷ ls)) s
        ∙ ap (λ c. round (loop (suc (length xs))) a c s) (collect_arguments_lem ((x ∷ xs, e) ∷ ls))
        ∙ elim (Front-cases (heads ls)) [
          | inl h ↦ rw (h, rows) refl
          | inr (inl h) ↦ rw (h, rows) refl
          | inr (inr (hs, t, h)) ↦
              rw (h, rows)
                (ap (λ k. bind (apply (p.call a (x ∷ hs)) s) (λ v. p.next a v k))
                  (fun_ext (λ a'. fun_ext (λ s'. loop-rows xs e t a' s'))))
        ]
