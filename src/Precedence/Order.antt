-- ===== src/Precedence/Order.antt =====
-- Sequences that follow the edges of `make_precedence_list` (src/classes/Class.c).
use list_talk.Common.{
  ℕ, suc, ◌<◌, ◌≤◌, Bool, true, false, ◌&&◌, ◌||◌, List, [], ◌∷◌, ◌==◌, ◌≡◌, refl, sym, ◌∙◌,
  if◌then◌else◌, arith, length, Bool-cases, inl, inr, ◌⊎◌,
}
use list_talk.Precedence.Members.{mem, mem_pair, mem_head, mem_later, mem_cases, Distinct}
use list_talk.Precedence.Edges.{new_edges, all_edges, mem_pair-append}
use list_talk.Precedence.Sequence.{Sequence, precedes, left, left_none, left_less}

-- Sequences.

new_to_each :
    (edges : List (ℕ × ℕ)) (classes emitted order : List ℕ) (x : ℕ)
    → Sequence edges classes emitted order
    → mem x emitted ≡ true
    → mem x order ≡ false
new_to_each edges classes emitted [] x q h = refl
new_to_each edges classes emitted (c ∷ order) x (m, (f, (p, q))) h =
    let rest = new_to_each edges classes (c ∷ emitted) order x q (mem_later x c emitted h) in
    ground arith

pub Sequence-Distinct :
    (edges : List (ℕ × ℕ)) (classes emitted order : List ℕ)
    → Sequence edges classes emitted order
    → Distinct order
Sequence-Distinct edges classes emitted [] q = tt
Sequence-Distinct edges classes emitted (c ∷ order) (m, (f, (p, q))) = (
  new_to_each edges classes (c ∷ emitted) order c q (mem_head c emitted),
  Sequence-Distinct edges classes (c ∷ emitted) order q,
)

pub Sequence-sound :
    (edges : List (ℕ × ℕ)) (classes emitted order : List ℕ) (x : ℕ)
    → Sequence edges classes emitted order
    → mem x order ≡ true
    → mem x classes ≡ true
Sequence-sound edges classes emitted [] x q h = absurd (ground arith)
Sequence-sound edges classes emitted (c ∷ order) x (m, (f, (p, q))) h =
    elim (mem_cases x c order h) [
      | inl same ↦ rw same m
      | inr later ↦ Sequence-sound edges classes (c ∷ emitted) order x q later
    ]

-- A class before another that is in the sequence stands before it there.
pub Sequence-precedes :
    (edges : List (ℕ × ℕ)) (classes emitted order : List ℕ) (a c : ℕ)
    → Sequence edges classes emitted order
    → mem_pair a c edges ≡ true
    → mem c order ≡ true
    → mem a emitted ≡ false
    → precedes a c order ≡ true
Sequence-precedes edges classes emitted [] a c q e h f = absurd (ground arith)
Sequence-precedes edges classes emitted (x ∷ order) a c (m, (g, (p, q))) e h f =
    elim (mem_cases c x order h) [
      | inl same ↦ let there = p a (rw same at e) in absurd cc
      | inr later ↦ elim (Bool-cases (x == a)) [
        | inl k ↦ rw k later
        | inr k ↦
            let rest =
              Sequence-precedes edges classes (x ∷ emitted) order a c q e later (ground arith) in
            rw k rest
      ]
    ]

-- The edges of all classes.

or_cases : (a b : Bool) → (a || b) ≡ true → (a ≡ true) ⊎ (b ≡ true)
or_cases true b h = inl refl
or_cases false b h = inr h

or_right : (a b : Bool) → b ≡ true → (a || b) ≡ true
or_right true b h = refl
or_right false b h = h

pub new_edges_ends :
    (c : ℕ) (sups : List ℕ) (a b : ℕ)
    → mem_pair a b (new_edges c sups) ≡ true
    → ((a ≡ c) ⊎ (mem a sups ≡ true)) × (mem b sups ≡ true)
new_edges_ends c [] a b h = absurd (ground arith)
new_edges_ends c (s ∷ []) a b h = (inl (ground arith), ground arith)
new_edges_ends c (s ∷ t ∷ sups) a b h =
    elim (or_cases ((a == c) && (b == s))
      (((a == s) && (b == t)) || mem_pair a b (new_edges c (t ∷ sups))) h) [
        | inl k ↦ (inl (ground arith), ground arith)
        | inr k ↦ elim (or_cases ((a == s) && (b == t)) (mem_pair a b (new_edges c (t ∷ sups))) k) [
          | inl k2 ↦ (inr (ground arith), ground arith)
          | inr k2 ↦
              let (first, second) = new_edges_ends c (t ∷ sups) a b k2 in
              (
                elim first [ inl e ↦ inl e | inr e ↦ inr (mem_later a s (t ∷ sups) e) ],
                mem_later b s (t ∷ sups) second,
              )
        ]
      ]

pub asked_origin :
    (superclasses : ℕ → List ℕ) (classes : List ℕ) (a b : ℕ)
    → mem_pair a b (all_edges superclasses classes) ≡ true
    → (c : ℕ) × ((mem c classes ≡ true) × (mem_pair a b (new_edges c (superclasses c)) ≡ true))
asked_origin superclasses [] a b h = absurd (ground arith)
asked_origin superclasses (c ∷ classes) a b h =
    let ours = new_edges c (superclasses c) in
    let theirs = all_edges superclasses classes in
    elim (or_cases (mem_pair a b ours) (mem_pair a b theirs)
      (sym (mem_pair-append a b ours theirs) ∙ h)) [
        | inl k ↦ (c, (mem_head c classes, k))
        | inr k ↦
            let (d, (m, e)) = asked_origin superclasses classes a b k in
            (d, (mem_later d c classes m, e))
      ]

pub asked_present :
    (superclasses : ℕ → List ℕ) (classes : List ℕ) (c a b : ℕ)
    → mem c classes ≡ true
    → mem_pair a b (new_edges c (superclasses c)) ≡ true
    → mem_pair a b (all_edges superclasses classes) ≡ true
asked_present superclasses [] c a b m h = absurd (ground arith)
asked_present superclasses (d ∷ classes) c a b m h =
    let ours = new_edges d (superclasses d) in
    let theirs = all_edges superclasses classes in
    rw (mem_pair-append a b ours theirs) (elim (mem_cases c d classes m) [
      | inl same ↦ let here_ : mem_pair a b ours ≡ true = rw same at h in rw here_ refl
      | inr later ↦
          or_right (mem_pair a b ours) (mem_pair a b theirs)
            (asked_present superclasses classes c a b later h)
    ])

-- A sequence as long as the array has the whole array.
pub Sequence-whole :
    (edges : List (ℕ × ℕ)) (classes emitted order : List ℕ) (x : ℕ)
    → Distinct classes
    → Sequence edges classes emitted order
    → left emitted classes ≤ length order
    → mem x classes ≡ true
    → (mem x emitted ≡ true) ⊎ (mem x order ≡ true)
Sequence-whole edges classes emitted [] x d q l m =
    inl (left_none emitted classes x (omega arith) m)
Sequence-whole edges classes emitted (c ∷ order) x d (k, (f, (p, q))) l m =
    let fewer = left_less emitted classes c d k f in
    elim (Sequence-whole edges classes (c ∷ emitted) order x d q (omega arith) m) [
      | inl old ↦ elim (mem_cases x c emitted old) [
        | inl same ↦ inr (ground arith)
        | inr older ↦ inl older
      ]
      | inr new ↦ inr (mem_later x c order new)
    ]

pub left_all : (classes : List ℕ) → left [] classes ≡ length classes
left_all [] = refl
left_all (c ∷ classes) = rw (left_all classes) (omega arith)

-- The position in the list, or its length.
abbrev pub position : ℕ → List ℕ → ℕ
position x [] = 0
position x (y ∷ ys) = if y == x then 0 else suc (position x ys)

later_present : (a b : ℕ) (xs : List ℕ) → precedes a b xs ≡ true → mem b xs ≡ true
later_present a b [] h = absurd (ground arith)
later_present a b (x ∷ xs) h = elim (Bool-cases (x == a)) [
  | inl e ↦ mem_later b x xs (rw e at h)
  | inr e ↦ mem_later b x xs (later_present a b xs (rw e at h))
]

pub precedes-position :
    (a b : ℕ) (xs : List ℕ) → Distinct xs → precedes a b xs ≡ true → position a xs < position b xs
precedes-position a b [] d h = absurd (ground arith)
precedes-position a b (x ∷ xs) (dx, d) h = elim (Bool-cases (x == a)) [
  | inl e ↦
      let later : mem b xs ≡ true = rw e at h in
      let other : (x == b) ≡ false = ground arith in rw (e, other) (omega arith)
  | inr e ↦
      let rest = precedes-position a b xs d (rw e at h) in
      let later = later_present a b xs (rw e at h) in
      let other : (x == b) ≡ false = ground arith in rw (e, other) (omega arith)
]
