-- ===== src/Hash/Placement.antt =====
-- Where the entries of a hash table stand, and what `grow_table` does to them.
use list_talk.Common.{
  ℕ, zero, suc, ◌+◌, ◌-◌, ◌≤◌, ◌<◌, ◌≡◌, refl, ap, ◌∙◌, Option, none, some, List, [], ◌∷◌, arith,
  ◌==◌, if◌then◌else◌, length, get_or, set, length-set, get_or-set, bit_and,
}
use list_talk.Common.Bits.{bit_and-le}
use list_talk.Hash.Keys.{Key}
use list_talk.Hash.{Entry, Chain, matches, move_chain, move_all}
use list_talk.Hash.Chains.{find, count}

abbrev pub or_else {ℓ} : {A : Type ℓ} → Option A → Option A → Option A
or_else (some a) d = some a
or_else none d = d

or_else-none {ℓ} : {A : Type ℓ} (o : Option A) → or_else o none ≡ o
or_else-none (some a) = refl
or_else-none none = refl

-- The number of entries in all chains.
unfoldable pub entries {ℓ} : {A : Type ℓ} → List (List A) → ℕ
entries [] = 0
entries (c ∷ cs) = length c + entries cs

pub entries-set {ℓ} :
    {A : Type ℓ} (v : List (List A)) (i : ℕ) (c : List A)
    → i < length v
    → entries (set v i c) + length (get_or v i []) ≡ entries v + length c
unfolding entries
entries-set [] i c h = absurd (omega arith)
entries-set (x ∷ v) zero c h = omega arith
entries-set (x ∷ v) (suc i) c h = omega (arith, entries-set v i c (omega arith))

module _ {ℓ} {K : Type ℓ} ⦃k : Key K⦄ where
  abbrev pub slot : ℕ → K → ℕ
  slot mask q = bit_and (k.hash q) mask

  pub slot-lt : (mask n : ℕ) (q : K) → n ≡ mask + 1 → slot mask q < n
  slot-lt mask n q e = omega (arith, bit_and-le (k.hash q) mask)

module _ {ℓ} {K V : Type ℓ} ⦃k : Key K⦄ where
  -- A key has one entry at most, and only in its own chain.
  pub record IsPlaced (v : List (Chain K V)) (mask : ℕ) : Type ℓ where
    pub width : length v ≡ mask + 1
    pub once : (q : K) (i : ℕ) → count q (get_or v i []) ≤ (if slot mask q == i then 1 else 0)

  unfoldable pub look : List (Chain K V) → ℕ → K → Option V
  look v mask q = find q (get_or v (slot mask q) [])

  module _ (v : List (Chain K V)) (mask : ℕ) (p : K) (c : Chain K V) where
    pub look-set :
        length v ≡ mask + 1
        → (q : K)
        → look (set v (slot mask p) c) mask q
          ≡ (if slot mask q == slot mask p then find q c else look v mask q)
    unfolding look
    look-set w q =
        rw (get_or-set v (slot mask p) (slot mask q) c [])
          (ground (arith, slot-lt mask (length v) p w))

    pub set-IsPlaced :
        IsPlaced v mask
        → ((q : K) → count q c ≤ (if slot mask q == slot mask p then 1 else 0))
        → IsPlaced (set v (slot mask p) c) mask
    set-IsPlaced h few = record {
      width = length-set v (slot mask p) c ∙ h.width;
      once = λ q i. rw (get_or-set v (slot mask p) i c []) (ground (arith, few q, h.once q i));
    }

  -- The last match of a chain, or `d`: what moving the chain leaves in front.
  latest : K → Chain K V → Option V → Option V
  latest q [] d = d
  latest q (j ∷ n) d = latest q n (if matches q j then some j.value else d)

  latest-count_zero : (q : K) (c : Chain K V) (d : Option V) → count q c ≡ 0 → latest q c d ≡ d
  unfolding latest count
  latest-count_zero q [] d h = refl
  latest-count_zero q (j ∷ n) d h = ground (arith, latest-count_zero q n d)

  latest-find :
      (q : K) (c : Chain K V) (d : Option V) → count q c ≤ 1 → latest q c d ≡ or_else (find q c) d
  unfolding latest count find
  latest-find q [] d h = refl
  latest-find q (j ∷ n) d h =
      ground (arith, latest-find q n d, latest-count_zero q n (some j.value))

  -- `s` chains, indexed by `hash & (s - 1)`.
  module _ (s : ℕ) (pos : 0 < s) where
    abbrev push : Entry K V → List (Chain K V) → List (Chain K V)
    push j v = set v (bit_and j.hash (s - 1)) (j ∷ get_or v (bit_and j.hash (s - 1)) [])

    abbrev one_if : K → Entry K V → ℕ
    one_if q j = if matches q j then 1 else 0

    count-push :
        (q : K) (i : ℕ) (j : Entry K V) (v : List (Chain K V))
        → length v ≡ s
        → count q (get_or (push j v) i [])
          ≡ count q (get_or v i []) + (if slot (s - 1) q == i then one_if q j else 0)
    unfolding count
    count-push q i j v w =
        rw (get_or-set v (bit_and j.hash (s - 1)) i (j ∷ get_or v (bit_and j.hash (s - 1)) []) [])
          (ground (arith, bit_and-le j.hash (s - 1)))

    look-push :
        (q : K) (j : Entry K V) (v : List (Chain K V))
        → length v ≡ s
        → look (push j v) (s - 1) q ≡ (if matches q j then some j.value else look v (s - 1) q)
    unfolding look find
    look-push q j v w =
        rw
          (get_or-set v (bit_and j.hash (s - 1)) (slot (s - 1) q)
            (j ∷ get_or v (bit_and j.hash (s - 1)) []) [])
          (ground (arith, bit_and-le j.hash (s - 1)))

    length-move_chain :
        (c : Chain K V) (v : List (Chain K V)) → length (move_chain s c v) ≡ length v
    unfolding move_chain
    length-move_chain [] v = refl
    length-move_chain (j ∷ n) v =
        length-move_chain n (push j v) ∙ length-set v (bit_and j.hash (s - 1)) _

    entries-move_chain :
        (c : Chain K V) (v : List (Chain K V))
        → length v ≡ s
        → entries (move_chain s c v) ≡ entries v + length c
    unfolding move_chain
    entries-move_chain [] v w = omega arith
    entries-move_chain (j ∷ n) v w =
        let at = bit_and j.hash (s - 1) in
        let c = j ∷ get_or v at [] in
        omega (
          arith,
          entries-move_chain n (set v at c) (length-set v at c ∙ w),
          entries-set v at c (omega (arith, bit_and-le j.hash (s - 1))),
        )

    -- A move adds the chain's matches to the home chain of the key.
    count-move_chain :
        (q : K) (i : ℕ) (c : Chain K V) (v : List (Chain K V))
        → length v ≡ s
        → count q (get_or (move_chain s c v) i [])
          ≡ count q (get_or v i []) + (if slot (s - 1) q == i then count q c else 0)
    unfolding move_chain count
    count-move_chain q i [] v w = ground arith
    count-move_chain q i (j ∷ n) v w =
        let ih = count-move_chain q i n (push j v) (length-set v _ _ ∙ w) in
        ground (arith, ih, count-push q i j v w)

    look-move_chain :
        (q : K) (c : Chain K V) (v : List (Chain K V))
        → length v ≡ s
        → look (move_chain s c v) (s - 1) q ≡ latest q c (look v (s - 1) q)
    unfolding move_chain latest
    look-move_chain q [] v w = refl
    look-move_chain q (j ∷ n) v w =
        look-move_chain q n (push j v) (length-set v _ _ ∙ w) ∙ ap (latest q n) (look-push q j v w)

  -- The matches of a key in all chains, and the last of them.
  total : K → List (Chain K V) → ℕ
  total q [] = 0
  total q (c ∷ cs) = count q c + total q cs

  latest_all : K → List (Chain K V) → Option V → Option V
  latest_all q [] d = d
  latest_all q (c ∷ cs) d = latest_all q cs (latest q c d)

  module _ (s : ℕ) (pos : 0 < s) where
    pub length-move_all : (cs v : List (Chain K V)) → length (move_all s cs v) ≡ length v
    unfolding move_all
    length-move_all [] v = refl
    length-move_all (c ∷ cs) v = length-move_all cs _ ∙ length-move_chain s pos c v

    pub entries-move_all :
        (cs v : List (Chain K V))
        → length v ≡ s
        → entries (move_all s cs v) ≡ entries v + entries cs
    unfolding move_all entries
    entries-move_all [] v w = omega arith
    entries-move_all (c ∷ cs) v w = omega (
      arith,
      entries-move_all cs (move_chain s c v) (length-move_chain s pos c v ∙ w),
      entries-move_chain s pos c v w,
    )

    count-move_all :
        (q : K) (i : ℕ) (cs v : List (Chain K V))
        → length v ≡ s
        → count q (get_or (move_all s cs v) i [])
          ≡ count q (get_or v i []) + (if slot (s - 1) q == i then total q cs else 0)
    unfolding move_all total
    count-move_all q i [] v w = ground arith
    count-move_all q i (c ∷ cs) v w =
        let ih = count-move_all q i cs (move_chain s c v) (length-move_chain s pos c v ∙ w) in
        ground (arith, ih, count-move_chain s pos q i c v w)

    look-move_all :
        (q : K) (cs v : List (Chain K V))
        → length v ≡ s
        → look (move_all s cs v) (s - 1) q ≡ latest_all q cs (look v (s - 1) q)
    unfolding move_all latest_all
    look-move_all q [] v w = refl
    look-move_all q (c ∷ cs) v w =
        look-move_all q cs (move_chain s c v) (length-move_chain s pos c v ∙ w)
        ∙ ap (latest_all q cs) (look-move_chain s pos q c v w)

  nowhere :
      (q : K) (cs : List (Chain K V)) (d : Option V)
      → ((i : ℕ) → count q (get_or cs i []) ≡ 0)
      → (total q cs ≡ 0) × (latest_all q cs d ≡ d)
  unfolding total latest_all
  nowhere q [] d h = (refl, refl)
  nowhere q (c ∷ cs) d h =
      let (t, l) = nowhere q cs (latest q c d) (λ i. h (suc i)) in
      (omega (arith, h 0), l ∙ latest-count_zero q c d (h 0))

  -- If a key stands in chain `j` only, and once, the sweep over all chains finds what that one holds.
  only_at :
      (q : K) (j : ℕ) (cs : List (Chain K V)) (d : Option V)
      → ((i : ℕ) → count q (get_or cs i []) ≤ (if j == i then 1 else 0))
      → (total q cs ≡ count q (get_or cs j []))
        × (latest_all q cs d ≡ or_else (find q (get_or cs j [])) d)
  unfolding total latest_all
  only_at q j [] d h = unfold find count in (refl, refl)
  only_at q zero (c ∷ cs) d h =
      let (t, l) = nowhere q cs (latest q c d) (λ i. ground (arith, h (suc i))) in
      (omega arith, l ∙ latest-find q c d (h 0))
  only_at q (suc j) (c ∷ cs) d h =
      let none_here : count q c ≡ 0 = ground (arith, h 0) in
      let (t, l) = only_at q j cs (latest q c d) (λ i. ground (arith, h (suc i))) in
      (omega arith, l ∙ ap (or_else (find q (get_or cs j []))) (latest-count_zero q c d none_here))

  -- Moving all chains of a table into a fresh, larger vector loses nothing.
  module _ (s mask : ℕ) (pos : 0 < s) (old fresh : List (Chain K V)) where
    pub move_all-look :
        IsPlaced old mask
        → length fresh ≡ s
        → ((q : K) → look fresh (s - 1) q ≡ none)
        → (q : K) → look (move_all s old fresh) (s - 1) q ≡ look old mask q
    unfolding look
    move_all-look h w empty q =
        look-move_all s pos q old fresh w
        ∙ (only_at q (slot mask q) old (look fresh (s - 1) q) (h.once q)).1
        ∙ rw (empty q) (or_else-none _)

    pub move_all-IsPlaced :
        IsPlaced old mask
        → length fresh ≡ s
        → ((q : K) (i : ℕ) → count q (get_or fresh i []) ≡ 0)
        → IsPlaced (move_all s old fresh) (s - 1)
    move_all-IsPlaced h w empty = record {
      width = omega (arith, length-move_all s pos old fresh);
      once = λ q i. ground (
        arith,
        count-move_all s pos q i old fresh w,
        empty q i,
        (only_at q (slot mask q) old none (h.once q)).0,
        h.once q (slot mask q),
      );
    }
