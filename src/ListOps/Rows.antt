-- ===== src/ListOps/Rows.antt =====
-- What the callers of the iteration operations see: one call for each row of the lists.
use list_talk.Common.{
  ℕ, suc, ◌≡◌, refl, ap, Bool, true, false, Option, none, some, List, [], ◌∷◌, length,
}
use list_talk.ListOps.{Value, nil, atom, from_list_with_rest}
use list_talk.ListOps.Iteration.{
  Collected, check_cursors, collect_arguments, pairs, car, cdr, map_values,
}

-- A list by its elements and the atom that ends it, if it is not proper.
abbrev pub Spine : Type 0
Spine = List Value × Option ℕ

abbrev pub end : Option ℕ → Value
end none = nil
end (some n) = atom n

abbrev pub value_of : Spine → Value
value_of (xs, e) = from_list_with_rest xs (end e)

abbrev pub values_of : List Spine → List Value
values_of [] = []
values_of (l ∷ ls) = value_of l ∷ values_of ls

-- `over true` where the first list to end is proper, `over false` where it is not.
pub data Front : Type 0 where
  over : Bool → Front
  front : List Value → List Spine → Front

abbrev pub onto : Value → List Value → Option ℕ → Front → Front
onto x xs e (Front.over b) = Front.over b
onto x xs e (Front.front heads tails) = Front.front (x ∷ heads) ((xs, e) ∷ tails)

-- The first elements of all the lists, and the lists without them.
unfoldable pub heads : List Spine → Front
heads [] = Front.front [] []
heads (([], none) ∷ ls) = Front.over true
heads (([], some n) ∷ ls) = Front.over false
heads ((x ∷ xs, e) ∷ ls) = onto x xs e (heads ls)

abbrev pub collected : Front → Collected
collected (Front.over true) = Collected.ended
collected (Front.over false) = Collected.improper
collected (Front.front h t) = Collected.arguments h (values_of t)

-- The rows of the lists, up to the end of the shortest, and whether that list is proper.
unfoldable pub rows : List Value → Option ℕ → List Spine → List (List Value) × Bool
rows [] none ls = ([], true)
rows [] (some n) ls = ([], false)
rows (x ∷ xs) e ls = elim (heads ls) [
  | over b ↦ ([], b)
  | front h t ↦ ((x ∷ h) ∷ (rows xs e t).0, (rows xs e t).1)
]

Checked : List Spine → Front → Type 0
Checked ls (Front.over true) = check_cursors (values_of ls) ≡ Collected.ended
Checked ls (Front.over false) = check_cursors (values_of ls) ≡ Collected.improper
Checked ls (Front.front h t) =
    (check_cursors (values_of ls) ≡ Collected.arguments [] [])
    × (map_values car (values_of ls) ≡ h)
    × (map_values cdr (values_of ls) ≡ values_of t)

onto-Checked :
    (x : Value) (xs : List Value) (e : Option ℕ) (ls : List Spine) (f : Front)
    → Checked ls f
    → Checked ((x ∷ xs, e) ∷ ls) (onto x xs e f)
unfolding Checked check_cursors
onto-Checked x xs e ls (Front.over true) h = h
onto-Checked x xs e ls (Front.over false) h = h
onto-Checked x xs e ls (Front.front a t) (h, i, j) =
    (h, ap (λ t. x ∷ t) i, ap (λ t. value_of (xs, e) ∷ t) j)

heads-Checked : (ls : List Spine) → Checked ls (heads ls)
unfolding Checked heads check_cursors
heads-Checked [] = (refl, refl, refl)
heads-Checked (([], none) ∷ ls) = refl
heads-Checked (([], some n) ∷ ls) = refl
heads-Checked ((x ∷ xs, e) ∷ ls) = onto-Checked x xs e ls (heads ls) (heads-Checked ls)

collect_Checked :
    (ls : List Spine) (f : Front) → Checked ls f → collect_arguments (values_of ls) ≡ collected f
unfolding Checked collect_arguments
collect_Checked ls (Front.over true) h = rw (h, collect_arguments)
collect_Checked ls (Front.over false) h = rw (h, collect_arguments)
collect_Checked ls (Front.front a t) (h, i, j) = rw (h, collect_arguments, i, j)

pub collect_arguments_lem :
    (ls : List Spine) → collect_arguments (values_of ls) ≡ collected (heads ls)
collect_arguments_lem ls = collect_Checked ls (heads ls) (heads-Checked ls)

pub pairs_lem : (xs : List Value) (e : Option ℕ) → pairs (value_of (xs, e)) ≡ length xs
unfolding pairs
pairs_lem [] none = refl
pairs_lem [] (some n) = refl
pairs_lem (x ∷ xs) e = ap suc (pairs_lem xs e)
