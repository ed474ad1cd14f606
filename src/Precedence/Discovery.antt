-- ===== src/Precedence/Discovery.antt =====
-- The discovery loop of `make_precedence_list` (src/classes/Class.c) against reachability.
use list_talk.Common.{
  ℕ, zero, suc, ◌+◌, ◌<◌, ◌≤◌, true, false, List, [], ◌∷◌, ◌++◌, ◌≡◌, refl, arith, length,
  length-append, Bool-cases, inl, inr,
}
use mathlib.Core.List.{append_assoc, append-nil}
use list_talk.Precedence.{add_superclasses, discover}
use list_talk.Precedence.Members.{
  mem, Distinct, unseen, Distinct-snoc, unseen_less, mem_cases, mem_head, mem_later, append_left,
  append_right, snoc_cases, snoc_self,
}

-- The classes that a class has above it, through any number of superclasses, and itself.
pub data Reachable (superclasses : ℕ → List ℕ) (self : ℕ) : ℕ → Type 0 where
  here : Reachable superclasses self self
  above :
      (c s : ℕ)
      → Reachable superclasses self c
      → mem s (superclasses c) ≡ true
      → Reachable superclasses self s

module _ (superclasses : ℕ → List ℕ) (total self : ℕ)
    (bounded : (c s : ℕ) → mem s (superclasses c) ≡ true → s < total) where
  -- What the array of classes is at any time.
  pub record Seen (classes : List ℕ) : Type 0 where
    pub distinct : Distinct classes
    pub reachable : (x : ℕ) → mem x classes ≡ true → Reachable superclasses self x
    pub room : length classes + unseen total classes ≡ total

  pub Seen-snoc :
      (classes : List ℕ) (s : ℕ)
      → Seen classes
      → mem s classes ≡ false
      → s < total
      → Reachable superclasses self s
      → Seen (classes ++ (s ∷ []))
  Seen-snoc classes s h e hs hr = record {
    distinct = Distinct-snoc classes s h.distinct e;
    reachable = λ x k. elim (snoc_cases x s classes k) [
      | inl old ↦ h.reachable x old
      | inr new ↦ rw new hr
    ];
    room = omega (arith, h.room, length-append classes (s ∷ []), unseen_less total s classes hs e);
  }

  -- The array after the superclasses of one class.
  record Added (before sups after : List ℕ) : Type 0 where
    seen : Seen after
    kept : (x : ℕ) → mem x before ≡ true → mem x after ≡ true
    added : (x : ℕ) → mem x sups ≡ true → mem x after ≡ true

  add_superclasses-Added :
      (scanned waiting sups : List ℕ)
      → Seen (scanned ++ waiting)
      → ((s : ℕ) → mem s sups ≡ true → (s < total) × Reachable superclasses self s)
      → Added (scanned ++ waiting) sups (scanned ++ add_superclasses scanned waiting sups)
  unfolding add_superclasses
  add_superclasses-Added scanned waiting [] h hs = record {
    seen = h;
    kept = λ x k. k;
    added = λ x k. absurd (ground arith);
  }
  add_superclasses-Added scanned waiting (s ∷ sups) h hs =
      elim (Bool-cases (mem s (scanned ++ waiting))) [
        | inl e ↦
            let rest =
              add_superclasses-Added scanned waiting sups h (λ x k. hs x (mem_later x s sups k)) in
            rw e (record {
              seen = rest.seen;
              kept = rest.kept;
              added = λ x k. elim (mem_cases x s sups k) [
                | inl same ↦ rest.kept x (rw same e)
                | inr later ↦ rest.added x later
              ];
            })
        | inr e ↦
            let now = hs s (mem_head s sups) in
            let joined = append_assoc scanned waiting (s ∷ []) in
            let snoc = Seen-snoc (scanned ++ waiting) s h e now.0 now.1 in
            let rest =
              add_superclasses-Added scanned (waiting ++ (s ∷ [])) sups (rw (← joined) snoc)
                (λ x k. hs x (mem_later x s sups k)) in
            let keep : (x : ℕ)
                → mem x (scanned ++ waiting ++ (s ∷ [])) ≡ true
                → mem x (scanned ++ add_superclasses scanned (waiting ++ (s ∷ [])) sups) ≡ true =
              λ x k. rest.kept x (rw (← joined) k) in
            rw e (record {
              seen = rest.seen;
              kept = λ x k. keep x (append_left x (scanned ++ waiting) (s ∷ []) k);
              added = λ x k. elim (mem_cases x s sups k) [
                | inl same ↦ keep x (rw same (snoc_self s (scanned ++ waiting)))
                | inr later ↦ rest.added x later
              ];
            })
      ]

  -- The two loops at any time: the superclasses of what is scanned are in the array.
  record Progress (scanned waiting : List ℕ) : Type 0 where
    seen : Seen (scanned ++ waiting)
    start : mem self (scanned ++ waiting) ≡ true
    closed :
        (c s : ℕ)
        → mem c scanned ≡ true
        → mem s (superclasses c) ≡ true
        → mem s (scanned ++ waiting) ≡ true

  -- What the discovery is to give: the classes that can be reached, each once.
  pub record Reached (classes : List ℕ) : Type 0 where
    pub distinct : Distinct classes
    pub reachable : (x : ℕ) → mem x classes ≡ true → Reachable superclasses self x
    pub start : mem self classes ≡ true
    pub closed :
        (c s : ℕ) → mem c classes ≡ true → mem s (superclasses c) ≡ true → mem s classes ≡ true
    pub room : length classes + unseen total classes ≡ total

  pub discovers_each :
      (classes : List ℕ)
      → Reached classes
      → (x : ℕ) → Reachable superclasses self x
      → mem x classes ≡ true
  discovers_each classes h x here = h.start
  discovers_each classes h x (above c s k m) = h.closed c s (discovers_each classes h c k) m

  finish : (scanned : List ℕ) → Progress scanned [] → Reached scanned
  finish scanned h = record {
    distinct = rw (append-nil scanned) at h.seen.distinct;
    reachable = λ x k. h.seen.reachable x (rw (append-nil scanned) k);
    start = rw (append-nil scanned) at h.start;
    closed = λ c s k m. rw (append-nil scanned) at (h.closed c s k m);
    room = rw (append-nil scanned) at h.seen.room;
  }

  Progress-step :
      (scanned : List ℕ) (c : ℕ) (waiting : List ℕ)
      → Progress scanned (c ∷ waiting)
      → Progress
          (scanned ++ (c ∷ []))
          (add_superclasses (scanned ++ (c ∷ [])) waiting (superclasses c))
  Progress-step scanned c waiting h =
      let joined = append_assoc scanned (c ∷ []) waiting in
      let there = h.seen.reachable c (append_right c scanned (c ∷ waiting) (mem_head c waiting)) in
      let next =
        add_superclasses-Added (scanned ++ (c ∷ [])) waiting (superclasses c) (rw joined h.seen)
          (λ s k. (bounded c s k, above c s there k)) in
      record {
        seen = next.seen;
        start = next.kept self (rw joined h.start);
        closed = λ x s k m. elim (snoc_cases x c scanned k) [
          | inl old ↦ next.kept s (rw joined (h.closed x s old m))
          | inr new ↦ next.added s (rw new at m)
        ];
      }

  discover-Reached :
      (fuel : ℕ) (scanned waiting : List ℕ)
      → Progress scanned waiting
      → total ≤ fuel + length scanned
      → Reached (discover superclasses fuel scanned waiting)
  unfolding discover
  discover-Reached zero scanned [] h hf = rw (append-nil scanned) (finish scanned h)
  discover-Reached zero scanned (c ∷ waiting) h hf =
      let room = h.seen.room in absurd (omega (arith, room, length-append scanned (c ∷ waiting)))
  discover-Reached (suc fuel) scanned [] h hf = finish scanned h
  discover-Reached (suc fuel) scanned (c ∷ waiting) h hf =
      discover-Reached fuel (scanned ++ (c ∷ []))
        (add_superclasses (scanned ++ (c ∷ [])) waiting (superclasses c))
        (Progress-step scanned c waiting h) (omega (arith, length-append scanned (c ∷ [])))

  pub unseen_all : (n : ℕ) → unseen n [] ≡ n
  unseen_all zero = refl
  unseen_all (suc n) = omega (arith, unseen_all n)

  -- As many rounds as there are classes discover exactly the classes that can be reached.
  pub discover_lem : self < total → Reached (discover superclasses total [] (self ∷ []))
  discover_lem h =
      discover-Reached total [] (self ∷ [])
        (record {
          seen = record {
            distinct = (refl, tt);
            reachable = λ x k. let same : x ≡ self = ground arith in rw same here;
            room = omega (arith, unseen_less total self [] h refl, unseen_all total);
          };
          start = mem_head self [];
          closed = λ c s k m. absurd (ground arith);
        })
        (omega arith)
