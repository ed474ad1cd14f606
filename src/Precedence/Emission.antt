-- ===== src/Precedence/Emission.antt =====
-- The loop of `make_precedence_list` (src/classes/Class.c) that selects and emits the classes.
use list_talk.Common.{
  ℕ, true, false, not, ◌&&◌, List, [], ◌∷◌, none, some, ◌==◌, ◌≡◌, ◌≢◌, refl, ap, ◌∙◌, arith, All,
  Bool-cases, inl, inr,
}
use mathlib.Core.Path.{subst}
use list_talk.Precedence.{Row, select, release}
use list_talk.Precedence.Members.{mem, mem_head, mem_later, mem_cases}
use list_talk.Precedence.Edges.{pending, DistinctPairs, Consistent, classes_of, pending_release}

module _ (edges : List (ℕ × ℕ)) (distinct : DistinctPairs edges) where
  pub release-Consistent :
      (emitted : List ℕ) (s : ℕ) (rows : List Row)
      → mem s emitted ≡ false
      → All (Consistent edges emitted) rows
      → All (Consistent edges (s ∷ emitted)) (release s edges rows)
  unfolding release
  release-Consistent emitted s [] h k = tt
  release-Consistent emitted s (row ∷ rows) h ((ke, ki), k) =
      let fewer = pending_release edges emitted s row.class distinct h in
      ((rw ke refl, ground arith), release-Consistent emitted s rows h k)

  pub classes_of-release :
      (s : ℕ) (rows : List Row) → classes_of (release s edges rows) ≡ classes_of rows
  unfolding release
  classes_of-release s [] = refl
  classes_of-release s (row ∷ rows) = ap (λ cs. row.class ∷ cs) (classes_of-release s rows)

  -- A class that is selected.
  abbrev pub Ready : List ℕ → List Row → ℕ → Type 0
  Ready emitted rows s =
      (mem s (classes_of rows) ≡ true) × ((mem s emitted ≡ false) × (pending edges emitted s ≡ 0))

  pub select-Ready :
      (emitted : List ℕ) (rows : List Row) (s : ℕ)
      → All (Consistent edges emitted) rows
      → select rows ≡ some s
      → Ready emitted rows s
  unfolding select
  select-Ready emitted [] s k h = absurd cc
  select-Ready emitted (row ∷ rows) s ((ke, ki), k) h =
      elim (Bool-cases (not row.emitted && (row.indegree == 0))) [
        | inl e ↦
            let found : some row.class ≡ some s = rw e at h in
            let same : row.class ≡ s = cc in
            let none_before : pending edges emitted row.class ≡ 0 = ground arith in
            let new : mem row.class emitted ≡ false = ground arith in
            subst (λ c. Ready emitted (row ∷ rows) c) same
              (mem_head row.class (classes_of rows), (new, none_before))
        | inr e ↦
            let later = select-Ready emitted rows s k (rw e at h) in
            (mem_later s row.class (classes_of rows) later.0, later.1)
      ]

  pub stuck_pending :
      (emitted : List ℕ) (rows : List Row) (c : ℕ)
      → All (Consistent edges emitted) rows
      → select rows ≡ none
      → mem c (classes_of rows) ≡ true
      → mem c emitted ≡ false
      → pending edges emitted c ≢ 0
  unfolding select
  stuck_pending emitted [] c k h m f p = absurd cc
  stuck_pending emitted (row ∷ rows) c ((ke, ki), k) h m f p =
      elim (Bool-cases (not row.emitted && (row.indegree == 0))) [
        | inl e ↦ let found : some row.class ≡ none = rw e at h in absurd cc
        | inr e ↦ elim (mem_cases c row.class (classes_of rows) m) [
          | inl same ↦
              let old : row.emitted ≡ false = ke ∙ (rw same at f) in
              let idle : row.indegree ≡ 0 = ki ∙ (rw same at p) in absurd (ground arith)
          | inr later ↦ stuck_pending emitted rows c k (rw e at h) later f p
        ]
      ]
