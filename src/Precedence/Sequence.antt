-- ===== src/Precedence/Sequence.antt =====
-- The order in which `make_precedence_list` (src/classes/Class.c) emits the classes.
use list_talk.Common.{
  ℕ, zero, suc, ◌+◌, ◌<◌, Bool, true, false, not, ◌&&◌, List, [], ◌∷◌, none, some, ◌==◌, ◌≡◌, ◌≢◌,
  refl, ap, ◌∙◌, if◌then◌else◌, arith, length, All, ==_refl, Bool-cases, Option-cases, inl, inr,
}
use mathlib.Core.Path.{subst}
use list_talk.Precedence.{Row, select, release, emit}
use list_talk.Precedence.Members.{mem, mem_pair, mem_head, mem_later, mem_cases, Distinct}
use list_talk.Precedence.Edges.{pending, DistinctPairs, Consistent, classes_of}
use list_talk.Precedence.Emission.{
  select-Ready, stuck_pending, release-Consistent, classes_of-release,
}

-- Each class of the sequence is in the array, is new, and has every class before it emitted.
abbrev pub Sequence : List (ℕ × ℕ) → List ℕ → List ℕ → List ℕ → Type 0
Sequence edges classes emitted [] = Unit
Sequence edges classes emitted (c ∷ order) =
    (mem c classes ≡ true)
    × ((mem c emitted ≡ false)
        × (((a : ℕ) → mem_pair a c edges ≡ true → mem a emitted ≡ true)
            × Sequence edges classes (c ∷ emitted) order))

-- The class stands in the list, and the other one after it.
abbrev pub precedes : ℕ → ℕ → List ℕ → Bool
precedes a b [] = false
precedes a b (x ∷ xs) = let rest = precedes a b xs in if x == a then mem b xs else rest

-- How many classes of the array have not been emitted.
abbrev pub left : List ℕ → List ℕ → ℕ
left emitted [] = 0
left emitted (c ∷ classes) = (if mem c emitted then 0 else 1) + left emitted classes

pub left_none :
    (emitted classes : List ℕ) (c : ℕ)
    → left emitted classes ≡ 0
    → mem c classes ≡ true
    → mem c emitted ≡ true
left_none emitted [] c h m = absurd (ground arith)
left_none emitted (d ∷ classes) c h m = elim (mem_cases c d classes m) [
  | inl same ↦ let there : mem d emitted ≡ true = ground arith in rw same there
  | inr later ↦ left_none emitted classes c (ground arith) later
]

-- Some class has not been emitted.
left_some :
    (emitted classes : List ℕ) (n : ℕ)
    → left emitted classes ≡ suc n
    → (c : ℕ) × ((mem c classes ≡ true) × (mem c emitted ≡ false))
left_some emitted [] n h = absurd (omega arith)
left_some emitted (c ∷ classes) n h = elim (Bool-cases (mem c emitted)) [
  | inl e ↦
      let (d, (m, f)) = left_some emitted classes n (ground arith) in
      (d, (mem_later d c classes m, f))
  | inr e ↦ (c, (mem_head c classes, e))
]

left_absent :
    (emitted classes : List ℕ) (c : ℕ)
    → mem c classes ≡ false
    → left (c ∷ emitted) classes ≡ left emitted classes
left_absent emitted [] c h = refl
left_absent emitted (d ∷ classes) c h =
    let rest = left_absent emitted classes c (ground arith) in
    let other : (d == c) ≡ false = ground arith in rw (other, rest) refl

pub left_less :
    (emitted classes : List ℕ) (c : ℕ)
    → Distinct classes
    → mem c classes ≡ true
    → mem c emitted ≡ false
    → suc (left (c ∷ emitted) classes) ≡ left emitted classes
left_less emitted [] c d m f = absurd (ground arith)
left_less emitted (x ∷ classes) c (dx, d) m f = elim (Bool-cases (x == c)) [
  | inl e ↦
      let same : x ≡ c = ground arith in
      let old : mem x emitted ≡ false = rw same f in
      let rest = left_absent emitted classes c (rw same at dx) in rw (e, old, rest) (omega arith)
  | inr e ↦ let rest = left_less emitted classes c d (ground arith) f in rw e (omega arith)
]

-- Nothing before a class is pending.
pending_none :
    (edges : List (ℕ × ℕ)) (emitted : List ℕ) (c : ℕ)
    → pending edges emitted c ≡ 0
    → (a : ℕ) → mem_pair a c edges ≡ true
    → mem a emitted ≡ true
pending_none [] emitted c h a m = absurd (ground arith)
pending_none ((x, y) ∷ edges) emitted c h a m = elim (Bool-cases ((a == x) && (c == y))) [
  | inl e ↦
      let first : a ≡ x = ground arith in
      let second : (y == c) ≡ true = ground arith in
      let there : mem x emitted ≡ true = ground arith in rw first there
  | inr e ↦ pending_none edges emitted c (ground arith) a (ground arith)
]

-- A class before it is pending.
pending_some :
    (edges : List (ℕ × ℕ)) (emitted : List ℕ) (c : ℕ)
    → pending edges emitted c ≢ 0
    → (a : ℕ) × ((mem_pair a c edges ≡ true) × (mem a emitted ≡ false))
pending_some [] emitted c h = absurd (h refl)
pending_some ((x, y) ∷ edges) emitted c h = elim (Bool-cases ((y == c) && not (mem x emitted))) [
  | inl e ↦
      let same : c ≡ y = ground arith in (x, (rw (same, ==_refl x, ==_refl y) refl, ground arith))
  | inr e ↦
      let (a, (m, f)) = pending_some edges emitted c (λ z. h (rw e (omega arith))) in
      (a, (ground arith, f))
]

module _ (edges : List (ℕ × ℕ)) (distinct : DistinctPairs edges) where
  -- What the loop returns is such a sequence, of the length asked for.
  pub emit-Sequence :
      (n : ℕ) (emitted : List ℕ) (rows : List Row) (order : List ℕ)
      → All (Consistent edges emitted) rows
      → emit n edges rows ≡ some order
      → Sequence edges (classes_of rows) emitted order × (length order ≡ n)
  unfolding emit
  emit-Sequence zero emitted rows order k h =
      let none_left : [] ≡ order = cc in
      subst (λ o. Sequence edges (classes_of rows) emitted o × (length o ≡ 0)) none_left (tt, refl)
  emit-Sequence (suc n) emitted rows order k h = elim (Option-cases (select rows)) [
    | inl e ↦ let failed : none ≡ some order = rw e at h in absurd cc
    | inr (s, e) ↦
        let (m, (f, p)) = select-Ready edges distinct emitted rows s k e in
        elim (Option-cases (emit n edges (release s edges rows))) [
          | inl e2 ↦ let failed : none ≡ some order = rw (e, e2) at h in absurd cc
          | inr (values, e2) ↦
              let found : some (s ∷ values) ≡ some order = rw (e, e2) at h in
              let same : s ∷ values ≡ order = cc in
              let (q, l) =
                emit-Sequence n (s ∷ emitted) (release s edges rows) values
                  (release-Consistent edges distinct emitted s rows f k) e2 in
              subst (λ o. Sequence edges (classes_of rows) emitted o × (length o ≡ suc n)) same
                (
                  (
                    m,
                    (
                      f,
                      (
                        pending_none edges emitted s p,
                        rw (classes_of-release edges distinct s rows) at q,
                      ),
                    ),
                  ),
                  ap (λ x. suc x) l,
                )
        ]
  ]

  module _ (classes : List ℕ) (once : Distinct classes) (rank : ℕ → ℕ)
      (increasing : (a b : ℕ) → mem_pair a b edges ≡ true → rank a < rank b)
      (sources : (a b : ℕ) → mem_pair a b edges ≡ true → mem a classes ≡ true) where
    -- Below every class that is left there is one that no class is before.
    never_stuck :
        (bound : ℕ) (emitted : List ℕ) (rows : List Row) (c : ℕ)
        → rank c < bound
        → All (Consistent edges emitted) rows
        → classes_of rows ≡ classes
        → select rows ≡ none
        → mem c classes ≡ true
        → mem c emitted ≡ true
    never_stuck zero emitted rows c r k same h m = absurd (omega arith)
    never_stuck (suc bound) emitted rows c r k same h m = elim (Bool-cases (mem c emitted)) [
      | inl e ↦ e
      | inr e ↦
          let waits = stuck_pending edges distinct emitted rows c k h (rw same m) e in
          let (a, (b, f)) = pending_some edges emitted c waits in
          let less = increasing a c b in
          let there = never_stuck bound emitted rows a (omega arith) k same h (sources a c b) in
          absurd cc
    ]

    -- When a rank grows along the edges, the loop emits as many classes as are left.
    pub emit_total :
        (n : ℕ) (emitted : List ℕ) (rows : List Row)
        → All (Consistent edges emitted) rows
        → classes_of rows ≡ classes
        → left emitted classes ≡ n
        → (order : List ℕ) × (emit n edges rows ≡ some order)
    unfolding emit
    emit_total zero emitted rows k same l = ([], refl)
    emit_total (suc n) emitted rows k same l = elim (Option-cases (select rows)) [
      | inl e ↦
          let (c, (m, f)) = left_some emitted classes n l in
          let there = never_stuck (suc (rank c)) emitted rows c (omega arith) k same e m in
          absurd cc
      | inr (s, e) ↦
          let (m, (f, p)) = select-Ready edges distinct emitted rows s k e in
          let fewer = left_less emitted classes s once (rw same at m) f in
          let (order, done) =
            emit_total n (s ∷ emitted) (release s edges rows)
              (release-Consistent edges distinct emitted s rows f k)
              (classes_of-release edges distinct s rows ∙ same) (omega arith) in
          (s ∷ order, rw (e, done) refl)
    ]
