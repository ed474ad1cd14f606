-- ===== src/Precedence/Inheritance.antt =====
-- What `make_precedence_list` (src/classes/Class.c) returns, and when.
use list_talk.Common.{
  ℕ, ◌<◌, Bool, true, false, ◌||◌, List, [], ◌∷◌, some, ◌≡◌, refl, sym, ◌∙◌, arith, map, length,
  inl, inr, ◌↔◌,
}
use list_talk.Precedence.{
  Graph, new_row, discover, count_reachable_classes, add_edges, emit, make_precedence_list,
}
use list_talk.Precedence.Members.{mem, mem_pair, Distinct}
use list_talk.Precedence.Edges.{new_edges, all_edges, Extended, add_edges-Extended, new_rows-Built}
use list_talk.Precedence.Discovery.{Reachable, above, Reached, discover_lem, discovers_each}
use list_talk.Precedence.Count.{class_count_lem}
use list_talk.Precedence.Sequence.{Sequence, precedes, emit-Sequence, emit_total}
use list_talk.Precedence.Order.{
  Sequence-Distinct, Sequence-sound, Sequence-precedes, Sequence-whole, left_all, new_edges_ends,
  asked_origin, asked_present, position, precedes-position,
}

-- The rank grows from each class to its superclasses, and from each superclass to the next.
abbrev pub Respects : (ℕ → List ℕ) → ℕ → (ℕ → ℕ) → Type 0
Respects superclasses self rank =
    (c a b : ℕ)
    → Reachable superclasses self c
    → mem_pair a b (new_edges c (superclasses c)) ≡ true
    → rank a < rank b

module _ (superclasses : ℕ → List ℕ) (total self : ℕ)
    (bounded : (c s : ℕ) → mem s (superclasses c) ≡ true → s < total) (valid : self < total) where
  abbrev classes : List ℕ
  classes = discover superclasses total [] (self ∷ [])

  abbrev start : Graph
  start = record { edges = []; rows = map new_row classes }

  reached : Reached superclasses total self bounded classes
  reached = discover_lem superclasses total self bounded valid

  built :
      Extended classes (all_edges superclasses classes) start (add_edges superclasses classes start)
  built =
      add_edges-Extended classes superclasses classes start (new_rows-Built classes) reached.closed

  abbrev edges : List (ℕ × ℕ)
  edges = built.after.edges

  class_count : (count_reachable_classes superclasses total self []).0 ≡ length classes
  class_count = class_count_lem superclasses total self bounded valid

  edges_mem : (a b : ℕ) → mem_pair a b edges ≡ mem_pair a b (all_edges superclasses classes)
  edges_mem a b = built.adds a b ∙ or_none (mem_pair a b (all_edges superclasses classes))
    where
      or_none : (p : Bool) → (p || false) ≡ p
      or_none true = refl
      or_none false = refl

  returned_follows :
      (order : List ℕ)
      → make_precedence_list superclasses total self ≡ some order
      → Sequence edges classes [] order × (length order ≡ length classes)
  unfolding make_precedence_list
  returned_follows order h =
      let run : emit (length classes) edges built.after.rows ≡ some order =
        rw (built.returned, class_count) at h in
      rw built.built.same_classes at (
        emit-Sequence edges built.built.distinct (length classes) [] built.after.rows order
          built.built.consistent run)

  listed_sound :
      (order : List ℕ) (x : ℕ)
      → make_precedence_list superclasses total self ≡ some order
      → mem x order ≡ true
      → Reachable superclasses self x
  listed_sound order x h m =
      reached.reachable x (Sequence-sound edges classes [] order x (returned_follows order h).0 m)

  listed_complete :
      (order : List ℕ) (x : ℕ)
      → make_precedence_list superclasses total self ≡ some order
      → Reachable superclasses self x
      → mem x order ≡ true
  listed_complete order x h r =
      let (q, l) = returned_follows order h in
      let whole =
        Sequence-whole edges classes [] order x reached.distinct q (omega (arith, left_all classes))
          (discovers_each superclasses total self bounded classes reached x r) in
      elim whole [ inl k ↦ absurd (ground arith) | inr k ↦ k ]

  -- When an order is returned, the classes in it are exactly the class itself and the classes that
  -- can be reached from it through superclasses, and none of them stands in it twice.
  pub precedence_members :
      (order : List ℕ)
      → make_precedence_list superclasses total self ≡ some order
      → Distinct order × ((x : ℕ) → (mem x order ≡ true) ↔ Reachable superclasses self x)
  precedence_members order h = (
    Sequence-Distinct edges classes [] order (returned_follows order h).0,
    λ x. (listed_sound order x h, listed_complete order x h),
  )

  -- When an order is returned, it keeps the order that each class in it asks for: the class stands
  -- before its superclasses, and each of its superclasses before the next one of its array.
  pub precedence_order :
      (order : List ℕ) (c a b : ℕ)
      → make_precedence_list superclasses total self ≡ some order
      → Reachable superclasses self c
      → mem_pair a b (new_edges c (superclasses c)) ≡ true
      → precedes a b order ≡ true
  precedence_order order c a b h r e =
      let there = discovers_each superclasses total self bounded classes reached c r in
      let ends = new_edges_ends c (superclasses c) a b e in
      Sequence-precedes edges classes [] order a b (returned_follows order h).0
        (edges_mem a b ∙ asked_present superclasses classes c a b there e)
        (listed_complete order b h (above c b r ends.1)) refl

  edge_source : (a b : ℕ) → mem_pair a b edges ≡ true → mem a classes ≡ true
  edge_source a b e =
      let (c, (m, k)) = asked_origin superclasses classes a b (sym (edges_mem a b) ∙ e) in
      elim (new_edges_ends c (superclasses c) a b k).0 [
        | inl same ↦ rw same m
        | inr up ↦ reached.closed c a m up
      ]

  ranked_listed :
      (rank : ℕ → ℕ)
      → Respects superclasses self rank
      → (order : List ℕ) × (make_precedence_list superclasses total self ≡ some order)
  unfolding make_precedence_list
  ranked_listed rank h =
      let increasing : (a b : ℕ) → mem_pair a b edges ≡ true → rank a < rank b = λ a b e.
        let (c, (m, k)) = asked_origin superclasses classes a b (sym (edges_mem a b) ∙ e) in
        h c a b (reached.reachable c m) k in
      let (order, done) =
        emit_total edges built.built.distinct classes reached.distinct rank increasing edge_source
          (length classes) [] built.after.rows built.built.consistent built.built.same_classes
          (left_all classes) in
      (order, rw (built.returned, class_count) done)

  -- An order is returned, and `LT_error` is not called, exactly when some ranking of the classes
  -- respects the order that every class asks for.
  pub precedence_exists :
      ((order : List ℕ) × (make_precedence_list superclasses total self ≡ some order))
      ↔ ((rank : ℕ → ℕ) × Respects superclasses self rank)
  precedence_exists = (
    (λ (order, h). (
      (λ x. position x order),
      λ c a b r e.
          precedes-position a b order (precedence_members order h).0
            (precedence_order order c a b h r e),
    )),
    (λ (rank, h). ranked_listed rank h),
  )
