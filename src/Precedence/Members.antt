-- ===== src/Precedence/Members.antt =====
-- Lists of classes and of edges (src/classes/Class.c) as sets: members and duplicates.
use list_talk.Common.{
  ℕ, zero, suc, ◌+◌, ◌<◌, ◌≤◌, Bool, true, false, ◌&&◌, ◌||◌, List, [], ◌∷◌, ◌++◌, ◌==◌, ◌≡◌, refl,
  if◌then◌else◌, arith, ==_refl, Bool-cases, inl, inr, ◌⊎◌, sym, ◌∙◌,
}

abbrev pub mem : ℕ → List ℕ → Bool
mem x [] = false
mem x (y ∷ ys) = (x == y) || mem x ys

abbrev pub mem_pair : ℕ → ℕ → List (ℕ × ℕ) → Bool
mem_pair a b [] = false
mem_pair a b ((c, d) ∷ pairs) = ((a == c) && (b == d)) || mem_pair a b pairs

abbrev pub Distinct : List ℕ → Type 0
Distinct [] = Unit
Distinct (x ∷ xs) = (mem x xs ≡ false) × Distinct xs

pub mem-append : (x : ℕ) (xs ys : List ℕ) → mem x (xs ++ ys) ≡ (mem x xs || mem x ys)
mem-append x [] ys = refl
mem-append x (y ∷ xs) ys = rw (mem-append x xs ys) (or_assoc (x == y) (mem x xs) (mem x ys))
  where
    or_assoc : (a b c : Bool) → (a || (b || c)) ≡ ((a || b) || c)
    or_assoc true b c = refl
    or_assoc false b c = refl

pub Distinct-snoc :
    (xs : List ℕ) (x : ℕ) → Distinct xs → mem x xs ≡ false → Distinct (xs ++ (x ∷ []))
Distinct-snoc [] x h e = (refl, tt)
Distinct-snoc (y ∷ xs) x (hy, h) e =
    (rw (mem-append y xs (x ∷ []), hy) (ground arith), Distinct-snoc xs x h (ground arith))

-- How many of the first n classes are not in the list.
abbrev pub unseen : ℕ → List ℕ → ℕ
unseen zero xs = 0
unseen (suc n) xs = (if mem n xs then 0 else 1) + unseen n xs

pub snoc_self : (x : ℕ) (xs : List ℕ) → mem x (xs ++ (x ∷ [])) ≡ true
snoc_self x xs = rw (mem-append x xs (x ∷ []), ==_refl x) (or_last (mem x xs))
  where
    or_last : (b : Bool) → (b || true) ≡ true
    or_last true = refl
    or_last false = refl

snoc_other : (y x : ℕ) (xs : List ℕ) → (y == x) ≡ false → mem y (xs ++ (x ∷ [])) ≡ mem y xs
snoc_other y x xs h = rw (mem-append y xs (x ∷ []), h) (or_none (mem y xs))
  where
    or_none : (b : Bool) → (b || false) ≡ b
    or_none true = refl
    or_none false = refl

pub unseen_kept : (n x : ℕ) (xs : List ℕ) → n ≤ x → unseen n (xs ++ (x ∷ [])) ≡ unseen n xs
unseen_kept zero x xs h = refl
unseen_kept (suc n) x xs h =
    rw (snoc_other n x xs (ground arith), unseen_kept n x xs (omega arith)) refl

-- A new class is one class less that is not in the list.
pub unseen_less :
    (n x : ℕ) (xs : List ℕ)
    → x < n
    → mem x xs ≡ false
    → suc (unseen n (xs ++ (x ∷ []))) ≡ unseen n xs
unseen_less zero x xs h e = absurd (omega arith)
unseen_less (suc n) x xs h e = elim (Bool-cases (n == x)) [
  | inl s ↦
      let same : x ≡ n = ground arith in
      let old : mem n xs ≡ false = rw same at e in
      rw (same, snoc_self n xs, old, unseen_kept n n xs (omega arith)) (omega arith)
  | inr s ↦ let rest = unseen_less n x xs (ground arith) e in rw (snoc_other n x xs s) (omega arith)
]

pub mem_cases : (x y : ℕ) (ys : List ℕ) → mem x (y ∷ ys) ≡ true → (x ≡ y) ⊎ (mem x ys ≡ true)
mem_cases x y ys h = ground arith

pub mem_head : (x : ℕ) (ys : List ℕ) → mem x (x ∷ ys) ≡ true
mem_head x ys = rw (==_refl x) refl

pub mem_later : (x y : ℕ) (ys : List ℕ) → mem x ys ≡ true → mem x (y ∷ ys) ≡ true
mem_later x y ys h = ground arith

pub append_cases :
    (x : ℕ) (xs ys : List ℕ) → mem x (xs ++ ys) ≡ true → (mem x xs ≡ true) ⊎ (mem x ys ≡ true)
append_cases x xs ys h = or_cases (mem x xs) (mem x ys) (sym (mem-append x xs ys) ∙ h)
  where
    or_cases : (a b : Bool) → (a || b) ≡ true → (a ≡ true) ⊎ (b ≡ true)
    or_cases true b h = inl refl
    or_cases false b h = inr h

pub append_left : (x : ℕ) (xs ys : List ℕ) → mem x xs ≡ true → mem x (xs ++ ys) ≡ true
append_left x xs ys h = rw (mem-append x xs ys, h) refl

pub snoc_cases :
    (x s : ℕ) (xs : List ℕ) → mem x (xs ++ (s ∷ [])) ≡ true → (mem x xs ≡ true) ⊎ (x ≡ s)
snoc_cases x s xs h = elim (append_cases x xs (s ∷ []) h) [
  | inl k ↦ inl k
  | inr k ↦ inr (ground arith)
]

pub append_right : (x : ℕ) (xs ys : List ℕ) → mem x ys ≡ true → mem x (xs ++ ys) ≡ true
append_right x [] ys h = h
append_right x (y ∷ xs) ys h = mem_later x y (xs ++ ys) (append_right x xs ys h)
