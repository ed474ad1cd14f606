-- ===== src/Precedence/Edges.antt =====
-- The edges and the indegrees that `make_precedence_list` (src/classes/Class.c) builds.
use list_talk.Common.{
  ℕ, ◌+◌, Bool, true, false, not, ◌&&◌, ◌||◌, List, [], ◌∷◌, ◌++◌, Option, some, ◌==◌, ◌≡◌, refl,
  ap, ◌∙◌, if◌then◌else◌, arith, map, All, Bool-cases, inl, inr,
}
use list_talk.Precedence.{
  Row, Graph, new_row, class_known, increment, add_precedence_edge, add_class_edges, add_edges,
}
use list_talk.Precedence.Members.{mem, mem_pair, mem_head, mem_later}

-- How many edges lead to a class from classes that have not been emitted.
abbrev pub pending : List (ℕ × ℕ) → List ℕ → ℕ → ℕ
pending [] emitted c = 0
pending ((a, b) ∷ edges) emitted c =
    (if (b == c) && not (mem a emitted) then 1 else 0) + pending edges emitted c

abbrev pub DistinctPairs : List (ℕ × ℕ) → Type 0
DistinctPairs [] = Unit
DistinctPairs ((a, b) ∷ edges) = (mem_pair a b edges ≡ false) × DistinctPairs edges

-- What the arrays say of a class.
abbrev pub Consistent : List (ℕ × ℕ) → List ℕ → Row → Type 0
Consistent edges emitted row =
    (row.emitted ≡ mem row.class emitted) × (row.indegree ≡ pending edges emitted row.class)

abbrev pub classes_of : List Row → List ℕ
classes_of rows = map (λ (row : Row). row.class) rows

-- A class is emitted: the edges from it no longer count.
pub pending_release :
    (edges : List (ℕ × ℕ)) (emitted : List ℕ) (s c : ℕ)
    → DistinctPairs edges
    → mem s emitted ≡ false
    → pending edges emitted c
      ≡ pending edges (s ∷ emitted) c + (if mem_pair s c edges then 1 else 0)
pending_release [] emitted s c d h = refl
pending_release ((a, b) ∷ edges) emitted s c (da, d) h =
    let rest = pending_release edges emitted s c d h in
    elim (Bool-cases (a == s)) [
      | inl e ↦ let same : a ≡ s = ground arith in ground arith
      | inr e ↦ ground arith
    ]

pub record Built (classes : List ℕ) (graph : Graph) : Type 0 where
  pub consistent : All (Consistent graph.edges []) graph.rows
  pub distinct : DistinctPairs graph.edges
  pub same_classes : classes_of graph.rows ≡ classes

classes_of-increment :
    (s : ℕ) (rows : List Row) → classes_of (map (increment s) rows) ≡ classes_of rows
classes_of-increment s [] = refl
classes_of-increment s (row ∷ rows) = elim (Bool-cases (row.class == s)) [
  | inl e ↦ rw (e, classes_of-increment s rows) refl
  | inr e ↦ rw (e, classes_of-increment s rows) refl
]

increment-Consistent :
    (edges : List (ℕ × ℕ)) (a b : ℕ) (rows : List Row)
    → All (Consistent edges []) rows
    → All (Consistent ((a, b) ∷ edges) []) (map (increment b) rows)
increment-Consistent edges a b [] h = tt
increment-Consistent edges a b (row ∷ rows) ((he, hi), h) = elim (Bool-cases (row.class == b)) [
  | inl e ↦ rw e ((he, ground arith), increment-Consistent edges a b rows h)
  | inr e ↦ rw e ((he, ground arith), increment-Consistent edges a b rows h)
]

add_precedence_edge-Built :
    (classes : List ℕ) (a b : ℕ) (graph : Graph)
    → Built classes graph
    → Built classes (add_precedence_edge a b graph)
unfolding add_precedence_edge
add_precedence_edge-Built classes a b graph h = elim (Bool-cases (mem_pair a b graph.edges)) [
  | inl e ↦ rw e h
  | inr e ↦ rw e (record {
    consistent = increment-Consistent graph.edges a b graph.rows h.consistent;
    distinct = (e, h.distinct);
    same_classes = classes_of-increment b graph.rows ∙ h.same_classes;
  })
]

-- The edges that a class asks for: to each of its superclasses, and from each to the next.
abbrev pub new_edges : ℕ → List ℕ → List (ℕ × ℕ)
new_edges c [] = []
new_edges c (s ∷ []) = (c, s) ∷ []
new_edges c (s ∷ t ∷ superclasses) = (c, s) ∷ (s, t) ∷ new_edges c (t ∷ superclasses)

abbrev pub all_edges : (ℕ → List ℕ) → List ℕ → List (ℕ × ℕ)
all_edges superclasses [] = []
all_edges superclasses (c ∷ classes) =
    new_edges c (superclasses c) ++ all_edges superclasses classes

or_assoc : (a b c : Bool) → (a || (b || c)) ≡ ((a || b) || c)
or_assoc true b c = refl
or_assoc false b c = refl

regroup : (p q n g : Bool) → (n || ((q || false) || ((p || false) || g))) ≡ ((p || (q || n)) || g)
regroup false false n g = refl
regroup false true false g = refl
regroup false true true g = refl
regroup true false false g = refl
regroup true false true g = refl
regroup true true false g = refl
regroup true true true g = refl

swap : (p q g : Bool) → (q || (p || g)) ≡ ((p || q) || g)
swap false q g = refl
swap true false g = refl
swap true true g = refl

old_edge :
    (a b x y : ℕ) (edges : List (ℕ × ℕ))
    → mem_pair x y edges ≡ true
    → mem_pair a b edges ≡ ((((a == x) && (b == y)) || false) || mem_pair a b edges)
old_edge a b x y edges h = ground arith

pub mem_pair-append :
    (a b : ℕ) (xs ys : List (ℕ × ℕ))
    → mem_pair a b (xs ++ ys) ≡ (mem_pair a b xs || mem_pair a b ys)
mem_pair-append a b [] ys = refl
mem_pair-append a b ((c, d) ∷ xs) ys =
    rw (mem_pair-append a b xs ys)
      (or_assoc ((a == c) && (b == d)) (mem_pair a b xs) (mem_pair a b ys))

-- The graph has the edges of the list and those of the other graph.
abbrev pub Adds : List (ℕ × ℕ) → Graph → Graph → Type 0
Adds edges before after =
    (a b : ℕ) → mem_pair a b after.edges ≡ (mem_pair a b edges || mem_pair a b before.edges)

add_precedence_edge-Adds :
    (x y : ℕ) (graph : Graph) → Adds ((x, y) ∷ []) graph (add_precedence_edge x y graph)
unfolding add_precedence_edge
add_precedence_edge-Adds x y graph a b = elim (Bool-cases (mem_pair x y graph.edges)) [
  | inl e ↦ rw e (old_edge a b x y graph.edges e)
  | inr e ↦ rw e (or_assoc ((a == x) && (b == y)) false (mem_pair a b graph.edges))
]

class_known-mem : (c : ℕ) (rows : List Row) → class_known c rows ≡ mem c (classes_of rows)
class_known-mem c [] = refl
class_known-mem c (row ∷ rows) = ap (λ b. (c == row.class) || b) (class_known-mem c rows)

-- A graph that the loops have reached, with what they have added to the one before.
pub record Extended (classes : List ℕ) (edges : List (ℕ × ℕ)) (before : Graph)
    (result : Option Graph) : Type 0 where
  pub after : Graph
  pub returned : result ≡ some after
  pub built : Built classes after
  pub adds : Adds edges before after

new_rows-Consistent : (classes : List ℕ) → All (Consistent [] []) (map new_row classes)
new_rows-Consistent [] = tt
new_rows-Consistent (c ∷ classes) = ((refl, refl), new_rows-Consistent classes)

classes_of-new_row : (classes : List ℕ) → classes_of (map new_row classes) ≡ classes
classes_of-new_row [] = refl
classes_of-new_row (c ∷ classes) = ap (λ cs. c ∷ cs) (classes_of-new_row classes)

module _ (classes : List ℕ) where
  known :
      (s : ℕ) (graph : Graph)
      → Built classes graph
      → mem s classes ≡ true
      → class_known s graph.rows ≡ true
  known s graph h k = rw (class_known-mem s graph.rows, h.same_classes) k

  add_class_edges-Extended :
      (c : ℕ) (sups : List ℕ) (graph : Graph)
      → Built classes graph
      → ((s : ℕ) → mem s sups ≡ true → mem s classes ≡ true)
      → Extended classes (new_edges c sups) graph (add_class_edges c sups graph)
  unfolding add_class_edges
  add_class_edges-Extended c [] graph h k = record {
    after = graph;
    returned = refl;
    built = h;
    adds = λ a b. refl;
  }
  add_class_edges-Extended c (s ∷ []) graph h k =
      rw (known s graph h (k s (mem_head s []))) (record {
        after = add_precedence_edge c s graph;
        returned = refl;
        built = add_precedence_edge-Built classes c s graph h;
        adds = add_precedence_edge-Adds c s graph;
      })
  add_class_edges-Extended c (s ∷ t ∷ sups) graph h k =
      let first = add_precedence_edge c s graph in
      let second = add_precedence_edge s t first in
      let one = add_precedence_edge-Built classes c s graph h in
      let rest =
        add_class_edges-Extended c (t ∷ sups) second
          (add_precedence_edge-Built classes s t first one)
          (λ x m. k x (mem_later x s (t ∷ sups) m)) in
      rw
        (
          known s graph h (k s (mem_head s (t ∷ sups))),
          known t graph h (k t (mem_later t s (t ∷ sups) (mem_head t sups))),
        )
        (record {
          after = rest.after;
          returned = rest.returned;
          built = rest.built;
          adds = λ a b.
              rest.adds a b
              ∙ rw (add_precedence_edge-Adds s t first a b, add_precedence_edge-Adds c s graph a b)
                  (regroup ((a == c) && (b == s)) ((a == s) && (b == t))
                    (mem_pair a b (new_edges c (t ∷ sups))) (mem_pair a b graph.edges));
        })

  -- Every class of the array has its superclasses in the array.
  pub add_edges-Extended :
      (superclasses : ℕ → List ℕ) (cs : List ℕ) (graph : Graph)
      → Built classes graph
      → ((c s : ℕ) → mem c cs ≡ true → mem s (superclasses c) ≡ true → mem s classes ≡ true)
      → Extended classes (all_edges superclasses cs) graph (add_edges superclasses cs graph)
  unfolding add_edges
  add_edges-Extended superclasses [] graph h k = record {
    after = graph;
    returned = refl;
    built = h;
    adds = λ a b. refl;
  }
  add_edges-Extended superclasses (c ∷ cs) graph h k =
      let first =
        add_class_edges-Extended c (superclasses c) graph h (λ s m. k c s (mem_head c cs) m) in
      let rest =
        add_edges-Extended superclasses cs first.after first.built
          (λ d s m. k d s (mem_later d c cs m)) in
      let ours = new_edges c (superclasses c) in
      let theirs = all_edges superclasses cs in
      rw first.returned (record {
        after = rest.after;
        returned = rest.returned;
        built = rest.built;
        adds = λ a b.
            rest.adds a b
            ∙ rw (first.adds a b, mem_pair-append a b ours theirs)
                (swap (mem_pair a b ours) (mem_pair a b theirs) (mem_pair a b graph.edges));
      })

  -- The graph before the loops.
  pub new_rows-Built : Built classes (record { edges = []; rows = map new_row classes })
  new_rows-Built = record {
    consistent = new_rows-Consistent classes;
    distinct = tt;
    same_classes = classes_of-new_row classes;
  }
