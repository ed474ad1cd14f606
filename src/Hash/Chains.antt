-- ===== src/Hash/Chains.antt =====
-- One chain of a hash table: what a walk finds after a write, and how many entries match a key.
use list_talk.Common.{
  ℕ, ◌+◌, ◌≤◌, ◌<◌, ◌≡◌, refl, true, Option, none, some, [], ◌∷◌, arith, if◌then◌else◌, length,
}
use mathlib.Core.Option
use list_talk.Hash.Keys.{Key}
use list_talk.Hash.{Entry, Chain, matches, find_entry, assign, unlink}

module _ {ℓ} {K V : Type ℓ} ⦃k : Key K⦄ where
  -- The value that a walk finds.
  unfoldable pub find : K → Chain K V → Option V
  find key [] = none
  find key (i ∷ next) = if matches key i then some i.value else find key next

  unfoldable pub count : K → Chain K V → ℕ
  count key [] = 0
  count key (i ∷ next) = if matches key i then count key next + 1 else count key next

  pub find_entry-find :
      (q : K) (c : Chain K V) → Option.map (λ e. e.value) (find_entry q c) ≡ find q c
  unfolding find_entry find
  find_entry-find q [] = refl
  find_entry-find q (i ∷ c) = ground (arith, find_entry-find q c)

  pub find-count_zero : (q : K) (c : Chain K V) → count q c ≡ 0 → find q c ≡ none
  unfolding count find
  find-count_zero q [] h = refl
  find-count_zero q (i ∷ c) h = ground (arith, find-count_zero q c)

  pub count-find-none : (q : K) (c : Chain K V) → find q c ≡ none → count q c ≡ 0
  unfolding count find
  count-find-none q [] h = refl
  count-find-none q (i ∷ c) h = ground (arith, count-find-none q c)

  -- An entry matches two keys only if they are one key.
  pub matches_both :
      (p q : K) (i : Entry K V) → matches p i ≡ true → matches q i ≡ true → k.equal p q ≡ true
  matches_both p q i hp hq =
      ground (arith, k.equal_iff i.key p, k.equal_iff i.key q, k.equal_iff p q)

  pub matches_same : (p q : K) (i : Entry K V) → k.equal p q ≡ true → matches p i ≡ matches q i
  matches_same p q i e = ground (arith, k.equal_iff p q)

  pub find-assign :
      (p q : K) (v : V) (c : Chain K V)
      → 0 < count p c
      → find q (assign p v c) ≡ (if k.equal p q then some v else find q c)
  unfolding find assign count
  find-assign p q v [] h = absurd (omega arith)
  find-assign p q v (i ∷ c) h =
      ground (arith, find-assign p q v c, matches_both p q i, matches_same p q i)

  pub count-assign : (p q : K) (v : V) (c : Chain K V) → count q (assign p v c) ≡ count q c
  unfolding assign count
  count-assign p q v [] = refl
  count-assign p q v (i ∷ c) = ground (arith, count-assign p q v c)

  pub length-assign : (p : K) (v : V) (c : Chain K V) → length (assign p v c) ≡ length c
  unfolding assign
  length-assign p v [] = refl
  length-assign p v (i ∷ c) = ground (arith, length-assign p v c)

  pub find-unlink :
      (p q : K) (c : Chain K V)
      → count p c ≤ 1
      → find q (unlink p c) ≡ (if k.equal p q then none else find q c)
  unfolding find unlink count
  find-unlink p q [] h = ground arith
  find-unlink p q (i ∷ c) h = ground (
    arith,
    find-unlink p q c,
    find-count_zero p c,
    k.equal_iff p q,
    matches_both p q i,
    matches_same p q i,
  )

  pub count-unlink : (p q : K) (c : Chain K V) → count q (unlink p c) ≤ count q c
  unfolding unlink count
  count-unlink p q [] = omega arith
  count-unlink p q (i ∷ c) = ground (arith, count-unlink p q c)

  pub length-unlink : (p : K) (c : Chain K V) → 0 < count p c → length (unlink p c) + 1 ≡ length c
  unfolding unlink count
  length-unlink p [] h = absurd (omega arith)
  length-unlink p (i ∷ c) h = ground (arith, length-unlink p c)
