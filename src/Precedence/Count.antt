-- ===== src/Precedence/Count.antt =====
-- `count_reachable_classes` against the classes that `make_precedence_list` discovers
-- (src/classes/Class.c).
use list_talk.Common.{
  ℕ, zero, suc, ◌+◌, ◌<◌, ◌≤◌, true, false, List, [], ◌∷◌, ◌++◌, ◌≡◌, refl, arith, length,
  length-append, Bool-cases, inl, inr, ◌⊎◌,
}
use list_talk.Precedence.{count_superclasses, count_reachable_classes, discover}
use list_talk.Precedence.Members.{
  mem, unseen, mem_cases, mem_head, mem_later, append_left, snoc_cases, snoc_self, unseen_less,
}
use list_talk.Precedence.Discovery.{
  Reachable, here, above, Seen, Seen-snoc, discover_lem, unseen_all, discovers_each,
}

unseen_more :
    (n : ℕ) (xs ys : List ℕ)
    → ((x : ℕ) → mem x xs ≡ true → mem x ys ≡ true)
    → unseen n ys ≤ unseen n xs
unseen_more zero xs ys h = omega arith
unseen_more (suc n) xs ys h =
    let rest = unseen_more n xs ys h in
    elim (Bool-cases (mem n xs)) [
      | inl e ↦ rw (e, h n e) (omega arith)
      | inr e ↦ elim (Bool-cases (mem n ys)) [
        | inl f ↦ rw (e, f) (omega arith)
        | inr f ↦ rw (e, f) (omega arith)
      ]
    ]

module _ (superclasses : ℕ → List ℕ) (total self : ℕ)
    (bounded : (c s : ℕ) → mem s (superclasses c) ≡ true → s < total) where
  -- The hash after visits that counted `n`: what is new has its superclasses in it.
  record Visited (before : List ℕ) (n : ℕ) (after : List ℕ) : Type 0 where
    seen : Seen superclasses total self bounded after
    kept : (x : ℕ) → mem x before ≡ true → mem x after ≡ true
    counted : length after ≡ length before + n
    closed :
        (x : ℕ)
        → mem x after ≡ true
        → (mem x before ≡ true) ⊎ ((s : ℕ) → mem s (superclasses x) ≡ true → mem s after ≡ true)

  Visited-none : (seen : List ℕ) → Seen superclasses total self bounded seen → Visited seen 0 seen
  Visited-none seen h = record {
    seen = h;
    kept = λ x k. k;
    counted = omega arith;
    closed = λ x k. inl k;
  }

  Visited-both : (a b c : List ℕ) (n m : ℕ) → Visited a n b → Visited b m c → Visited a (n + m) c
  Visited-both a b c n m h k = record {
    seen = k.seen;
    kept = λ x e. k.kept x (h.kept x e);
    counted = omega (arith, h.counted, k.counted);
    closed = λ x e. elim (k.closed x e) [
      | inl old ↦ elim (h.closed x old) [
        | inl older ↦ inl older
        | inr up ↦ inr (λ s q. k.kept s (up s q))
      ]
      | inr up ↦ inr up
    ];
  }

  -- What a visit of a class that was not seen gives.
  abbrev Visit : (ℕ → List ℕ → ℕ × List ℕ) → ℕ → Type 0
  Visit visit fuel =
      (c : ℕ) (seen : List ℕ)
      → Seen superclasses total self bounded seen
      → mem c seen ≡ false
      → c < total
      → Reachable superclasses self c
      → unseen total seen ≤ fuel
      → Visited seen (visit c seen).0 (visit c seen).1 × (mem c (visit c seen).1 ≡ true)

  count_superclasses-Visited :
      (visit : ℕ → List ℕ → ℕ × List ℕ) (fuel : ℕ)
      → Visit visit fuel
      → (sups : List ℕ) (count : ℕ) (seen : List ℕ) → Seen superclasses total self bounded seen
      → unseen total seen ≤ fuel
      → ((s : ℕ) → mem s sups ≡ true → (s < total) × Reachable superclasses self s)
      → (n : ℕ) × (((count_superclasses visit sups count seen).0 ≡ count + n)
          × (Visited seen n (count_superclasses visit sups count seen).1
              × ((s : ℕ)
                  → mem s sups ≡ true
                  → mem s (count_superclasses visit sups count seen).1 ≡ true)))
  unfolding count_superclasses
  count_superclasses-Visited visit fuel v [] count seen h f hs =
      (0, (omega arith, (Visited-none seen h, λ s m. absurd (ground arith))))
  count_superclasses-Visited visit fuel v (s ∷ sups) count seen h f hs =
      elim (Bool-cases (mem s seen)) [
        | inl e ↦
            let (n, (counted, (visited, added))) =
              count_superclasses-Visited visit fuel v sups count seen h f
                (λ x k. hs x (mem_later x s sups k)) in
            rw e (
              n,
              (
                counted,
                (
                  visited,
                  λ x k. elim (mem_cases x s sups k) [
                    | inl same ↦ visited.kept x (rw same e)
                    | inr later ↦ added x later
                  ],
                ),
              ),
            )
        | inr e ↦
            let now = hs s (mem_head s sups) in
            let (first, there) = v s seen h e now.0 now.1 f in
            let after = (visit s seen).1 in
            let (n, (counted, (visited, added))) =
              count_superclasses-Visited visit fuel v sups (count + (visit s seen).0) after
                first.seen (omega (arith, first.seen.room, h.room, first.counted))
                (λ x k. hs x (mem_later x s sups k)) in
            rw e (
              (visit s seen).0 + n,
              (
                omega (arith, counted),
                (
                  Visited-both seen after
                      (count_superclasses visit sups (count + (visit s seen).0) after).1
                      (visit s seen).0 n first visited,
                  λ x k. elim (mem_cases x s sups k) [
                    | inl same ↦ visited.kept x (rw same there)
                    | inr later ↦ added x later
                  ],
                ),
              ),
            )
      ]

  count_reachable_classes-Visit :
      (fuel : ℕ) → Visit (count_reachable_classes superclasses fuel) fuel
  unfolding count_reachable_classes
  count_reachable_classes-Visit zero c seen h e b r f =
      absurd (omega (arith, unseen_less total c seen b e))
  count_reachable_classes-Visit (suc fuel) c seen h e b r f =
      let self_seen = seen ++ (c ∷ []) in
      let next = Seen-snoc superclasses total self bounded seen c h e b r in
      let (n, (counted, (visited, added))) =
        count_superclasses-Visited (count_reachable_classes superclasses fuel) fuel
          (count_reachable_classes-Visit fuel) (superclasses c) 1 self_seen next
          (omega (arith, unseen_less total c seen b e)) (λ s m. (bounded c s m, above c s r m)) in
      (
        record {
          seen = visited.seen;
          kept = λ x k. visited.kept x (append_left x seen (c ∷ []) k);
          counted = omega (arith, visited.counted, counted, length-append seen (c ∷ []));
          closed = λ x k. elim (visited.closed x k) [
            | inl old ↦ elim (snoc_cases x c seen old) [
              | inl older ↦ inl older
              | inr same ↦ inr (λ s m. added s (rw same at m))
            ]
            | inr up ↦ inr up
          ];
        },
        visited.kept c (snoc_self c seen),
      )

  seen_all :
      (n : ℕ) (seen : List ℕ)
      → Visited [] n seen
      → mem self seen ≡ true
      → (x : ℕ) → Reachable superclasses self x
      → mem x seen ≡ true
  seen_all n seen h m x here = m
  seen_all n seen h m x (above c s r k) = elim (h.closed c (seen_all n seen h m c r)) [
    | inl old ↦ absurd (ground arith)
    | inr up ↦ up s k
  ]

  module _ (valid : self < total) where
    at_first : Seen superclasses total self bounded []
    at_first = record {
      distinct = tt;
      reachable = λ x k. absurd (ground arith);
      room = omega (arith, unseen_all superclasses total self bounded total);
    }

    -- `count_reachable_classes` counts the classes that the loop of `make_precedence_list` puts in
    -- the array: `classes[discovered++]` stays in the array, and fills it.
    pub class_count_lem :
        (count_reachable_classes superclasses total self []).0
        ≡ length (discover superclasses total [] (self ∷ []))
    class_count_lem =
        let (visited, there) =
          count_reachable_classes-Visit total self [] at_first refl valid here
            (omega (arith, unseen_all superclasses total self bounded total)) in
        let seen = (count_reachable_classes superclasses total self []).1 in
        let reached = discover_lem superclasses total self bounded valid in
        let classes = discover superclasses total [] (self ∷ []) in
        let counted : (count_reachable_classes superclasses total self []).0 ≡ length seen =
          omega (arith, visited.counted) in
        let more = unseen_more total seen classes (λ x k.
          discovers_each superclasses total self bounded classes reached x
            (visited.seen.reachable x k)) in
        let less = unseen_more total classes seen (λ x k.
          seen_all (count_reachable_classes superclasses total self []).0 seen visited there x
            (reached.reachable x k)) in
        omega (arith, counted, more, less, visited.seen.room, reached.room)
