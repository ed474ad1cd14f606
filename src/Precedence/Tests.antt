-- ===== src/Precedence/Tests.antt =====
-- Tests of the precedence of classes (src/classes/Class.c).
use list_talk.Common.{
  ◌++◌, ◌∙◌, ap, ◌==◌, Option, if◌then◌else◌, ℕ, zero, suc, ◌<◌, true, List, [], ◌∷◌, length, none,
  some, ◌≡◌, refl, arith, ◌↔◌,
}
use list_talk.Precedence.{
  make_precedence_list, count_reachable_classes, count_superclasses, discover, add_superclasses,
  add_edges, add_class_edges, add_precedence_edge, emit, select, release,
}
use list_talk.Precedence.Members.{mem, Distinct}
use list_talk.Precedence.Sequence.{precedes}
use list_talk.Precedence.Discovery.{Reachable, here}
use list_talk.Precedence.Count.{class_count_lem}
use mathlib.Core.Option
use list_talk.Hash.{init, at, at_put}
use list_talk.Hash.Keys.{pointer_key}
use list_talk.Hash.Refine.{init_lem, at-view}
use list_talk.Precedence.Methods.{
  Dictionary, lookup_method_with_next, send_loop, lookup_method_with_next-send_loop,
}
use list_talk.Precedence.Inheritance.{
  Respects, precedence_members, precedence_order, precedence_exists,
}

-- A class with two superclasses that share theirs.
abbrev diamond : ℕ → List ℕ
diamond zero = 1 ∷ 2 ∷ []
diamond (suc zero) = 3 ∷ []
diamond (suc (suc zero)) = 3 ∷ []
diamond (suc (suc (suc n))) = []

diamond_bounded : (c s : ℕ) → mem s (diamond c) ≡ true → s < 4
diamond_bounded zero s h = ground arith
diamond_bounded (suc zero) s h = ground arith
diamond_bounded (suc (suc zero)) s h = ground arith
diamond_bounded (suc (suc (suc n))) s h = ground arith

diamond_order : make_precedence_list diamond 4 0 ≡ some (0 ∷ 1 ∷ 2 ∷ 3 ∷ [])
unfolding make_precedence_list count_reachable_classes count_superclasses discover add_superclasses
    add_edges add_class_edges add_precedence_edge emit select release
diamond_order = refl

-- A class that asks for its second superclass before the first one of its first superclass.
abbrev crossed : ℕ → List ℕ
crossed zero = 1 ∷ 2 ∷ []
crossed (suc zero) = 2 ∷ 1 ∷ []
crossed (suc (suc n)) = []

crossed_order : make_precedence_list crossed 3 0 ≡ none
unfolding make_precedence_list count_reachable_classes count_superclasses discover add_superclasses
    add_edges add_class_edges add_precedence_edge emit select release
crossed_order = refl

precedence_members_example :
    Distinct (0 ∷ 1 ∷ 2 ∷ 3 ∷ [])
    × ((x : ℕ) → (mem x (0 ∷ 1 ∷ 2 ∷ 3 ∷ []) ≡ true) ↔ Reachable diamond 0 x)
precedence_members_example =
    precedence_members diamond 4 0 diamond_bounded (ground arith) (0 ∷ 1 ∷ 2 ∷ 3 ∷ []) diamond_order

precedence_order_example : precedes 1 2 (0 ∷ 1 ∷ 2 ∷ 3 ∷ []) ≡ true
precedence_order_example =
    precedence_order diamond 4 0 diamond_bounded (ground arith) (0 ∷ 1 ∷ 2 ∷ 3 ∷ []) 0 1 2
      diamond_order here refl

precedence_exists_example :
    ((order : List ℕ) × (make_precedence_list diamond 4 0 ≡ some order))
    ↔ ((rank : ℕ → ℕ) × Respects diamond 0 rank)
precedence_exists_example = precedence_exists diamond 4 0 diamond_bounded (ground arith)

class_count_lem_example :
    (count_reachable_classes diamond 4 0 []).0 ≡ length (discover diamond 4 [] (0 ∷ []))
class_count_lem_example = class_count_lem diamond 4 0 diamond_bounded (ground arith)

-- The class 1 has a method for the selector 16, and the class 0 has none.
abbrev with_method : ℕ → Dictionary
with_method c = if c == 1 then at_put init 16 (some 77) else init

lookup_method_with_next-send_loop_example :
    (lookup_method_with_next with_method 16 2
      (record { entries = init; epoch = 1 })
      ((0 ∷ []) ++ (1 ∷ 3 ∷ []))).0
    ≡ send_loop with_method 16 (1 ∷ 3 ∷ [])
lookup_method_with_next-send_loop_example =
    lookup_method_with_next-send_loop with_method 16 2 (record { entries = init; epoch = 1 })
      (0 ∷ []) (1 ∷ 3 ∷ []) (binding_none, tt)
  where
    binding_none : at none (with_method 0) 16 ≡ none
    binding_none =
        let (valid, empty) = init_lem {K = ℕ} {V = Option ℕ} in
        at-view init valid 16 none ∙ ap (λ x. Option.get_or x none) (empty 16)
