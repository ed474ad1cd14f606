-- ===== src/Hash/Refine.antt =====
-- The hash table against the map from keys to values that it stands for.
use list_talk.Common.{
  ℕ, zero, suc, ◌+◌, ◌-◌, ◌*◌, ◌≤◌, ◌<◌, ◌≡◌, refl, sym, ap, ◌∙◌, Option, none, some, List, [], ◌∷◌,
  arith, ◌==◌, ltb, if◌then◌else◌, length, get_or, set, replicate, length-replicate,
  get_or-replicate, Option-cases, Bool-cases, inl, inr, ◌⊎◌,
}
use mathlib.Core.Option
use list_talk.Hash.Keys.{Key}
use list_talk.Hash.{
  Entry, Chain, InlineHash, init, grow_table, find_entry, get_hash_entry, home, assign, link,
  add_hash_entry, at_put, at, unlink, remove,
}
use list_talk.Hash.Chains.{
  find, count, find_entry-find, find-count_zero, count-find-none, find-assign, count-assign,
  length-assign, find-unlink, count-unlink, length-unlink,
}
use list_talk.Hash.Placement.{
  slot, slot-lt, entries, entries-set, IsPlaced, look, look-set, set-IsPlaced, move_all-look,
  move_all-IsPlaced, entries-move_all,
}

abbrev pub found {ℓ} : {V : Type ℓ} → Option V → ℕ
found none = 0
found (some x) = 1

module _ {ℓ} (A : Type ℓ) where
  abbrev empty_chains : ℕ → List (List A)
  empty_chains n = replicate n []

  entries-empty : (n : ℕ) → entries (empty_chains n) ≡ 0
  unfolding entries
  entries-empty zero = refl
  entries-empty (suc n) = omega (arith, entries-empty n)

module _ {ℓ} {K : Type ℓ} (V : Type ℓ) ⦃k : Key K⦄ where
  count-empty : (n : ℕ) (q : K) (i : ℕ) → count q (get_or (empty_chains (Entry K V) n) i []) ≡ 0
  unfolding count
  count-empty n q i = rw (get_or-replicate {A = Chain K V} n i [])

  look-empty : (n m : ℕ) (q : K) → look (empty_chains (Entry K V) n) m q ≡ none
  unfolding look find
  look-empty n m q = rw (get_or-replicate {A = Chain K V} n (slot m q) [])

module _ {ℓ} {K V : Type ℓ} ⦃k : Key K⦄ where
  -- The map that a table stands for.
  unfoldable pub view : InlineHash K V → K → Option V
  view h q = look h.vector h.mask q

  -- Every key is in its own chain, once at most; `count` counts the entries, and there are at
  -- most as many as chains.
  pub record IsValid (h : InlineHash K V) : Type ℓ where
    pub placed : IsPlaced h.vector h.mask
    pub counted : h.count ≡ entries h.vector
    pub roomy : h.count ≤ h.mask + 1

  init-IsValid : IsValid init
  unfolding init
  init-IsValid = record {
    placed = record { width = refl; once = λ q i. omega (arith, count-empty V 8 q i) };
    counted = sym (entries-empty (Entry K V) 8);
    roomy = omega arith;
  }

  init-view : (q : K) → view init q ≡ none
  unfolding init view
  init-view q = look-empty V 8 7 q

  -- A fresh table is well formed, has no entries, and finds nothing.
  pub init_lem : IsValid init × ((q : K) → view init q ≡ none)
  init_lem = (init-IsValid, init-view)

  module _ (h : InlineHash K V) (v : IsValid h) where
    size : ℕ
    size = (h.mask + 1) * 2

    grow_table-IsValid : IsValid (grow_table h)
    unfolding grow_table size
    grow_table-IsValid = record {
      placed =
          move_all-IsPlaced size h.mask (omega arith) h.vector (empty_chains (Entry K V) size)
            v.placed (length-replicate size []) (count-empty V size);
      counted = omega (
        arith,
        v.counted,
        entries-empty (Entry K V) size,
        entries-move_all size (omega arith) h.vector (empty_chains (Entry K V) size)
            (length-replicate size []),
      );
      roomy = omega (arith, v.roomy);
    }

    grow_table-view : (q : K) → view (grow_table h) q ≡ view h q
    unfolding grow_table view size
    grow_table-view =
        move_all-look size h.mask (omega arith) h.vector (empty_chains (Entry K V) size) v.placed
          (length-replicate size []) (look-empty V size (size - 1))

    -- `grow_table` doubles the number of chains, and keeps well-formedness, the count and every
    -- lookup.
    pub grow_table_lem :
        IsValid (grow_table h)
        × ((grow_table h).mask + 1 ≡ (h.mask + 1) * 2)
        × ((grow_table h).count ≡ h.count)
        × ((q : K) → view (grow_table h) q ≡ view h q)
    grow_table_lem = (
      grow_table-IsValid,
      unfold grow_table in omega arith,
      unfold grow_table in refl,
      grow_table-view,
    )

  -- `h` with the chain of `p` replaced by `c`, and `n` for the count.
  abbrev replace : InlineHash K V → K → Chain K V → ℕ → InlineHash K V
  replace h p c n = record h { vector = set h.vector (home h p) c; count = n }

  abbrev chain_of : InlineHash K V → K → Chain K V
  chain_of h p = get_or h.vector (home h p) []

  -- All writes replace the home chain of the key by one that answers for the new map.
  module _ (h : InlineHash K V) (v : IsValid h) (p : K) (c : Chain K V) (n : ℕ) (x : Option V) where
    replace-IsValid :
        ((q : K) → count q c ≤ (if slot h.mask q == slot h.mask p then 1 else 0))
        → n + length (chain_of h p) ≡ h.count + length c
        → n ≤ h.mask + 1
        → IsValid (replace h p c n)
    replace-IsValid few size room = record {
      placed = set-IsPlaced h.vector h.mask p c v.placed few;
      counted = omega (
        arith,
        v.counted,
        size,
        entries-set h.vector (home h p) c (slot-lt h.mask (length h.vector) p v.placed.width),
      );
      roomy = room;
    }

    replace-view :
        ((q : K) → find q c ≡ (if k.equal p q then x else find q (chain_of h p)))
        → (q : K) → view (replace h p c n) q ≡ (if k.equal p q then x else view h q)
    unfolding view look
    replace-view reads q =
        rw (look-set h.vector h.mask p c v.placed.width q)
          (ground (arith, reads q, k.equal_iff p q))

    -- The two halves of a write that answers `x` for `p`, together.
    module _ (few : (q : K) → count q c ≤ (if slot h.mask q == slot h.mask p then 1 else 0))
        (reads : (q : K) → find q c ≡ (if k.equal p q then x else find q (chain_of h p))) where
      replace_lem :
          n + length (chain_of h p) ≡ h.count + length c
          → n ≤ h.mask + 1
          → IsValid (replace h p c n)
            × ((q : K) → view (replace h p c n) q ≡ (if k.equal p q then x else view h q))
      replace_lem size room = (replace-IsValid few size room, replace-view reads)

  -- After a write of `x` at `p` (`none` removes), `h` became `g`: the map changed at `p` only, and
  -- the count by what came or went.
  pub record Writes (h : InlineHash K V) (p : K) (x : Option V) (g : InlineHash K V) : Type ℓ where
    pub valid : IsValid g
    pub size : g.count + found (view h p) ≡ h.count + found x
    pub reads : (q : K) → view g q ≡ (if k.equal p q then x else view h q)

  module _ (h : InlineHash K V) (v : IsValid h) (p : K) where
    link-Writes : (x : V) → view h p ≡ none → h.count ≤ h.mask → Writes h p (some x) (link h p x)
    unfolding link view look
    link-Writes x absent room =
        let e : Entry K V = record { hash = k.hash p; key = p; value = x } in
        let (valid, reads) =
          replace_lem h v p (e ∷ chain_of h p) (h.count + 1) (some x)
            (λ q.
              unfold count in
              ground (
                arith,
                v.placed.once q (home h p),
                count-find-none p (chain_of h p),
                k.equal_iff p q,
              ))
            (λ q. unfold find in ground (arith, k.equal_iff p q)) (omega arith) (omega arith) in
        record { valid = valid; size = rw absent (omega arith); reads = reads }

    assign-Writes :
        (x old : V)
        → view h p ≡ some old
        → Writes h p (some x) (replace h p (assign p x (chain_of h p)) h.count)
    unfolding view look
    assign-Writes x old there =
        let c = chain_of h p in
        let (valid, reads) =
          replace_lem h v p (assign p x c) h.count (some x)
            (λ q. rw (count-assign p q x c) (ground (arith, v.placed.once q (home h p))))
            (λ q. find-assign p q x c (ground (arith, find-count_zero p c)))
            (omega (arith, length-assign p x c)) v.roomy in
        record { valid = valid; size = rw there (omega arith); reads = reads }

    unlink-Writes :
        (old : V)
        → view h p ≡ some old
        → Writes h p none (replace h p (unlink p (chain_of h p)) (h.count - 1))
    unfolding view look
    unlink-Writes old there =
        let c = chain_of h p in
        let shorter = length-unlink p c (ground (arith, find-count_zero p c)) in
        let filled : 0 < h.count = omega (
          arith,
          v.counted,
          shorter,
          entries-set h.vector (home h p) [] (slot-lt h.mask (length h.vector) p v.placed.width),
        ) in
        let (valid, reads) =
          replace_lem h v p (unlink p c) (h.count - 1) none
            (λ q. ground (arith, count-unlink p q c, v.placed.once q (home h p)))
            (λ q. find-unlink p q c (ground (arith, v.placed.once p (home h p)))) (omega arith)
            (omega (arith, v.roomy)) in
        record { valid = valid; size = rw there (omega arith); reads = reads }

    -- What the walk of an operation found, by the map.
    get_hash_entry_cases :
        ((get_hash_entry h p ≡ none) × (view h p ≡ none))
        ⊎ ((e : Entry K V) × (get_hash_entry h p ≡ some e) × (view h p ≡ some e.value))
    unfolding get_hash_entry view look
    get_hash_entry_cases = elim (Option-cases (find_entry p (chain_of h p))) [
      | inl e ↦ inl (e, ground (arith, find_entry-find p (chain_of h p)))
      | inr (i, e) ↦ inr (i, e, ground (arith, find_entry-find p (chain_of h p)))
    ]

  module _ (h : InlineHash K V) (v : IsValid h) (p : K) where
    add_hash_entry-Writes : (x : V) → view h p ≡ none → Writes h p (some x) (add_hash_entry h p x)
    unfolding add_hash_entry
    add_hash_entry-Writes x absent = elim (Bool-cases (ltb h.mask h.count)) [
      | inr fits ↦ rw fits (link-Writes h v p x absent (ground arith))
      | inl full ↦
          let g = grow_table h in
          let (gv, wide, same, sees) = grow_table_lem h v in
          let w = link-Writes g gv p x (sees p ∙ absent) (omega (arith, v.roomy)) in
          rw full (record {
            valid = w.valid;
            size = omega (arith, w.size, same, ap found (sees p));
            reads = λ q. rw (← sees q) (w.reads q);
          })
    ]

    -- `LT_PointerHash_at_put` and `LT_StringHash_at_put` on a well-formed table: the table stays
    -- well formed, maps the key to the value and every other key as before, and counts a new key.
    pub at_put-Writes : (x : V) → Writes h p (some x) (at_put h p x)
    unfolding at_put
    at_put-Writes x = elim (get_hash_entry_cases h v p) [
      | inl (e, absent) ↦ rw (e, at_put) (add_hash_entry-Writes x absent)
      | inr (i, e, there) ↦ rw (e, at_put) (assign-Writes h v p x i.value there)
    ]

    -- `LT_PointerHash_remove` and `LT_StringHash_remove` on a well-formed table give the value that
    -- the key had, if any, and afterwards the key has none; every other key is as before.
    pub remove-Writes : ((remove h p).0 ≡ view h p) × Writes h p none (remove h p).1
    unfolding remove get_hash_entry
    remove-Writes = elim (get_hash_entry_cases h v p) [
      | inl (e, absent) ↦
          rw (e, remove)
            (
              sym absent,
              record {
                valid = v;
                size = rw absent (omega arith);
                reads = λ q. ground (arith, k.equal_iff p q);
              },
            )
      | inr (i, e, there) ↦ rw (e, remove) (sym there, unlink-Writes h v p i.value there)
    ]

    -- `LT_PointerHash_at` and `LT_StringHash_at` read the map; a missing key gives `null`.
    pub at-view : (null : V) → at null h p ≡ Option.get_or (view h p) null
    unfolding at
    at-view null = elim (get_hash_entry_cases h v p) [
      | inl (e, absent) ↦ rw (e, at, absent)
      | inr (i, e, there) ↦ rw (e, at, there)
    ]
