-- ===== src/ListOps/Reductions.antt =====
-- `LT_List_filter`, `LT_List_fold_right_many`, `LT_List_reduce_left_many` and
-- `LT_List_reduce_right_many` against the elements and the rows of the lists.
use list_talk.Common.{
  ℕ, suc, ◌≡◌, refl, ap, sym, ◌∙◌, Bool, true, false, Option, none, some, List, [], ◌∷◌, ◌++◌,
  length, inl, inr, if◌then◌else◌, Bool-cases,
}
use mathlib.Core.Path.{fun_ext}
use mathlib.Core.List.{append_assoc, append-nil}
use list_talk.ListOps.{Value, Error, Result, ok, error, from_list, truthy_p}
use list_talk.ListOps.Iteration.{Outcome, bind, filter, filter_loop}
use list_talk.ListOps.Folds.{tuple_seed, collect_loop, fold_right_loop, reduce_right_stack}
use list_talk.ListOps.Rows.{Spine, heads, value_of, values_of, rows, collect_arguments_lem}
use list_talk.ListOps.Calls.{Front-cases}

pub bind_assoc :
    {S A B C : Type 0} (o : Outcome S A) (f : A → S → Outcome S B) (g : B → S → Outcome S C)
    → bind (bind o f) g ≡ bind o (λ a s. bind (f a s) g)
bind_assoc (Outcome.returns a s) f g = refl
bind_assoc (Outcome.raises e s) f g = refl

pub bind_ext :
    {S A B : Type 0} (o : Outcome S A) (f g : A → S → Outcome S B)
    → ((a : A) (s : S) → f a s ≡ g a s)
    → bind o f ≡ bind o g
bind_ext o f g h = ap (bind o) (fun_ext (λ a. fun_ext (λ s. h a s)))

-- The stack that the collecting loop leaves.
abbrev pub onto_stack : List (List Value) → List (List Value) → List (List Value)
onto_stack [] stack = stack
onto_stack (r ∷ rs) stack = onto_stack rs (r ∷ stack)

abbrev pub stacked : List (List Value) × Bool → List (List Value) → Result (List (List Value))
stacked (rs, true) stack = ok (onto_stack rs stack)
stacked (rs, false) stack = error Error.expects_proper_lists

restack :
    (row : List Value) (stack : List (List Value)) (r : List (List Value) × Bool)
    → stacked r (row ∷ stack) ≡ stacked (row ∷ r.0, r.1) stack
restack row stack (rs, true) = refl
restack row stack (rs, false) = refl

pub collect_loop-rows :
    (xs : List Value) (e : Option ℕ) (ls : List Spine) (stack : List (List Value))
    → collect_loop (suc (length xs)) stack (values_of ((xs, e) ∷ ls)) ≡ stacked (rows xs e ls) stack
unfolding collect_loop rows heads
collect_loop-rows [] none ls stack = rw (collect_loop, collect_arguments_lem (([], none) ∷ ls))
collect_loop-rows [] (some n) ls stack =
    rw (collect_loop, collect_arguments_lem (([], some n) ∷ ls))
collect_loop-rows (x ∷ xs) e ls stack = elim (Front-cases (heads ls)) [
  | inl h ↦ rw (collect_loop, collect_arguments_lem ((x ∷ xs, e) ∷ ls), rows, h)
  | inr (inl h) ↦ rw (collect_loop, collect_arguments_lem ((x ∷ xs, e) ∷ ls), rows, h)
  | inr (inr (hs, t, h)) ↦
      rw (collect_loop, collect_arguments_lem ((x ∷ xs, e) ∷ ls), rows, h)
        (collect_loop-rows xs e t ((x ∷ hs) ∷ stack) ∙ restack (x ∷ hs) stack (rows xs e t))
]

module _ {S : Type 0} (apply : List Value → S → Outcome S Value) where
  -- One call for each element, in order; the elements that were answered true.
  unfoldable pub kept : List Value → Option ℕ → S → Outcome S (List Value)
  kept [] none s = Outcome.returns [] s
  kept [] (some n) s = Outcome.raises Error.expects_proper_lists s
  kept (x ∷ xs) e s = bind (apply (x ∷ []) s) (λ answer s'.
      bind (kept xs e s') (λ ys. Outcome.returns (if truthy_p answer then x ∷ ys else ys)))

  filter_loop-kept :
      (xs : List Value) (e : Option ℕ) (builder : List Value) (s : S)
      → filter_loop apply builder (value_of (xs, e)) s
        ≡ bind (kept xs e s) (λ ys. Outcome.returns (from_list (builder ++ ys)))
  unfolding filter_loop kept
  filter_loop-kept [] none builder s = rw (append-nil builder)
  filter_loop-kept [] (some n) builder s = refl
  filter_loop-kept (x ∷ xs) e builder s =
      bind_ext (apply (x ∷ []) s) _ _ (λ answer s'.
        filter_loop-kept xs e (if truthy_p answer then builder ++ (x ∷ []) else builder) s'
        ∙ bind_ext (kept xs e s') _ _ (λ ys s2. elim (Bool-cases (truthy_p answer)) [
          | inl t ↦ rw (t, append_assoc builder (x ∷ []) ys)
          | inr f ↦ rw f
        ])
        ∙ sym (bind_assoc (kept xs e s') _ _))
      ∙ sym (bind_assoc (apply (x ∷ []) s) _ _)

  -- `LT_List_filter` calls once for each element, in order, and answers the list of the elements
  -- whose call answered true; it raises behind the last element of a list that is not proper.
  pub filter-kept :
      (xs : List Value) (e : Option ℕ) (s : S)
      → filter apply (value_of (xs, e)) s
        ≡ bind (kept xs e s) (λ ys. Outcome.returns (from_list ys))
  unfolding filter
  filter-kept xs e s = filter_loop-kept xs e [] s

  -- Calls from the last row to the first, each with the answer of the one before behind its row.
  unfoldable pub from_right : List (List Value) → Value → S → Outcome S Value
  from_right [] initial s = Outcome.returns initial s
  from_right (r ∷ rs) initial s =
      bind (from_right rs initial s) (λ accumulator. apply (r ++ (accumulator ∷ [])))

  pub fold_right_loop-stack :
      (rs stack : List (List Value)) (initial : Value) (s : S)
      → fold_right_loop apply (onto_stack rs stack) initial s
        ≡ bind (from_right rs initial s) (fold_right_loop apply stack)
  unfolding fold_right_loop from_right
  fold_right_loop-stack [] stack initial s = refl
  fold_right_loop-stack (r ∷ rs) stack initial s =
      fold_right_loop-stack rs (r ∷ stack) initial s
      ∙ sym (bind_assoc (from_right rs initial s) _ _)

  pub bind-returns : (o : Outcome S Value) → bind o (fold_right_loop apply []) ≡ o
  unfolding fold_right_loop
  bind-returns (Outcome.returns a s) = refl
  bind-returns (Outcome.raises e s) = refl

  -- The same without an initial value: the last row, by `tuple_seed`, takes its place.
  unfoldable pub from_last : ℕ → List Value → List (List Value) → S → Outcome S Value
  from_last n r [] s = Outcome.returns (tuple_seed r n) s
  from_last n r (r' ∷ rs) s =
      bind (from_last n r' rs s) (λ accumulator. apply (r ++ (accumulator ∷ [])))

  pub reduce_right_stack-last :
      (n : ℕ) (r : List Value) (rs stack : List (List Value)) (s : S)
      → reduce_right_stack apply n (onto_stack (r ∷ rs) stack) s
        ≡ bind (from_last n r rs s) (fold_right_loop apply stack)
  unfolding reduce_right_stack from_last fold_right_loop
  reduce_right_stack-last n r [] stack s = refl
  reduce_right_stack-last n r (r' ∷ rs) stack s =
      reduce_right_stack-last n r' rs (r ∷ stack) s ∙ sym (bind_assoc (from_last n r' rs s) _ _)
