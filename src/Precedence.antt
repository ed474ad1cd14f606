-- ===== src/Precedence.antt =====
-- `make_precedence_list` of src/classes/Class.c: the order in which the classes of an object are
-- searched for a method.
-- A class is the number of its record, and `superclasses` reads the array of its superclasses, empty
-- for a null pointer. `classes`, `indegrees` and `emitted`, which one index runs over, are one list
-- of rows, and a class stands for its index in them. The matrix is the list of the pairs set in it.
pub mod Members
pub mod Discovery
pub mod Count
pub mod Edges
pub mod Emission
pub mod Sequence
pub mod Order
pub mod Inheritance
pub mod Methods
mod Tests
use list_talk.Common.{
  ℕ, zero, suc, ◌+◌, ◌-◌, Bool, true, false, not, ◌&&◌, ◌||◌, List, [], ◌∷◌, ◌++◌, Option, none,
  some, ◌==◌, if◌then◌else◌, map, length,
}
use list_talk.Precedence.Members.{mem, mem_pair}

-- The loop over the superclasses of one class: `scanned` and `waiting` are the array of classes up
-- to the index of the outer loop and from it on, and the hash of the classes seen holds both.
unfoldable pub add_superclasses : List ℕ → List ℕ → List ℕ → List ℕ
add_superclasses scanned waiting [] = waiting
add_superclasses scanned waiting (s ∷ superclasses) =
    let discovered = if mem s (scanned ++ waiting) then waiting else waiting ++ (s ∷ []) in
    add_superclasses scanned discovered superclasses

-- The loop that discovers the classes.
unfoldable pub discover : (ℕ → List ℕ) → ℕ → List ℕ → List ℕ → List ℕ
discover superclasses zero scanned waiting = scanned ++ waiting
discover superclasses (suc fuel) scanned [] = scanned
discover superclasses (suc fuel) scanned (c ∷ waiting) =
    let done = scanned ++ (c ∷ []) in
    discover superclasses fuel done (add_superclasses done waiting (superclasses c))

-- The loop of `count_reachable_classes`, `visit` being the function itself; a result is the count
-- and the hash of the classes seen.
unfoldable pub count_superclasses : (ℕ → List ℕ → ℕ × List ℕ) → List ℕ → ℕ → List ℕ → ℕ × List ℕ
count_superclasses visit [] count seen = (count, seen)
count_superclasses visit (superclass ∷ superclasses) count seen =
    if mem superclass seen
    then count_superclasses visit superclasses count seen
    else (let visited = visit superclass seen in
        count_superclasses visit superclasses (count + visited.0) visited.1)

-- `count_reachable_classes`
unfoldable pub count_reachable_classes : (ℕ → List ℕ) → ℕ → ℕ → List ℕ → ℕ × List ℕ
unfolding count_superclasses
count_reachable_classes superclasses zero klass seen = (0, seen)
count_reachable_classes superclasses (suc fuel) klass seen =
    count_superclasses (count_reachable_classes superclasses fuel) (superclasses klass) 1
      (seen ++ (klass ∷ []))

-- An index of the arrays.
pub record Row : Type 0 where
  pub class : ℕ
  pub indegree : ℕ
  pub emitted : Bool

pub record Graph : Type 0 where
  pub edges : List (ℕ × ℕ)
  pub rows : List Row

abbrev pub new_row : ℕ → Row
new_row c = record { class = c; indegree = 0; emitted = false }

-- The test of `class_array_index`, which fails for a class that is not in the array.
abbrev pub class_known : ℕ → List Row → Bool
class_known c [] = false
class_known c (row ∷ rows) = (c == row.class) || class_known c rows

-- `indegrees[after]++`
abbrev pub increment : ℕ → Row → Row
increment after row = if row.class == after then record row { indegree = row.indegree + 1 } else row

-- `add_precedence_edge`
unfoldable pub add_precedence_edge : ℕ → ℕ → Graph → Graph
add_precedence_edge before after graph =
    if mem_pair before after graph.edges
    then graph
    else record { edges = (before, after) ∷ graph.edges; rows = map (increment after) graph.rows }

-- The loop over the superclasses of one class that adds its edges, with none for `LT_error`.
unfoldable pub add_class_edges : ℕ → List ℕ → Graph → Option Graph
unfolding add_precedence_edge
add_class_edges c [] graph = some graph
add_class_edges c (s ∷ []) graph =
    if class_known s graph.rows then some (add_precedence_edge c s graph) else none
add_class_edges c (s ∷ t ∷ superclasses) graph =
    let rest =
      add_class_edges c (t ∷ superclasses)
        (add_precedence_edge s t (add_precedence_edge c s graph)) in
    if class_known s graph.rows && class_known t graph.rows then rest else none

abbrev pub and_then {ℓ κ} : {A : Type ℓ} {B : Type κ} → Option A → (A → Option B) → Option B
and_then none f = none
and_then (some a) f = f a

-- The loop over the classes that adds the edges.
unfoldable pub add_edges : (ℕ → List ℕ) → List ℕ → Graph → Option Graph
unfolding add_class_edges
add_edges superclasses [] graph = some graph
add_edges superclasses (c ∷ classes) graph =
    and_then (add_class_edges c (superclasses c) graph) (λ g. add_edges superclasses classes g)

-- The loop that selects the first class with no class before it.
unfoldable pub select : List Row → Option ℕ
select [] = none
select (row ∷ rows) =
    let rest = select rows in
    if not row.emitted && (row.indegree == 0) then some row.class else rest

-- `emitted[selected] = 1` and the loop that takes back the edges from the selected class.
abbrev pub release_row : ℕ → List (ℕ × ℕ) → Row → Row
release_row selected edges row = record {
  class = row.class;
  indegree = if mem_pair selected row.class edges then row.indegree - 1 else row.indegree;
  emitted = (row.class == selected) || row.emitted;
}

unfoldable pub release : ℕ → List (ℕ × ℕ) → List Row → List Row
release selected edges rows = map (release_row selected edges) rows

-- The loop that fills `values`, with none for `LT_error`.
unfoldable pub emit : ℕ → List (ℕ × ℕ) → List Row → Option (List ℕ)
unfolding select release
emit zero edges rows = some []
emit (suc n) edges rows =
    and_then (select rows)
      (λ s. and_then (emit n edges (release s edges rows)) (λ values. some (s ∷ values)))

-- `make_precedence_list`: the fuel of the count and of the discovery is the number of all classes.
unfoldable pub make_precedence_list : (ℕ → List ℕ) → ℕ → ℕ → Option (List ℕ)
unfolding count_reachable_classes discover add_edges emit
make_precedence_list superclasses total self =
    let class_count = (count_reachable_classes superclasses total self []).0 in
    let classes = discover superclasses total [] (self ∷ []) in
    and_then (add_edges superclasses classes (record { edges = []; rows = map new_row classes }))
      (λ graph. emit class_count graph.edges graph.rows)
