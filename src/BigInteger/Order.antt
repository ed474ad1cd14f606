-- ===== src/BigInteger/Order.antt =====
-- `compare_abs_limbs` (src/classes/BigInteger.c) against the order of the numbers, and limbs as the
-- only trimmed writing of their number.
use list_talk.Common.{
  ℕ, ◌+◌, ◌*◌, ◌<◌, List, [], ◌∷◌, length, ltb, ltb→lt, if◌then◌else◌, ◌≡◌, refl, sym, ◌∙◌, arith,
  Bool-cases, inl, inr,
}
use list_talk.Common.Int.{pos, negsuc, compare_ℤ}
use list_talk.BigInteger.Limbs.{trim, compare_low, compare_limbs, compare_abs_limbs}
use list_talk.BigInteger.Magnitude.{
  value, IsLimbs, IsTrimmed, value-trim, trim-IsTrimmed, trim-IsLimbs,
}

-- More limbs, with no zero at the high end, are a larger number.
value-longer :
    (left right : List ℕ)
    → IsLimbs left
    → IsTrimmed right
    → length left < length right
    → value left < value right
value-longer left [] hl hr h = absurd (omega arith)
value-longer [] (y ∷ right) hl (hy, hr) h = hy
value-longer (x ∷ left) (y ∷ right) (hx, hl) (hy, hr) h =
    omega (arith, value-longer left right hl hr (omega arith))

module _ (a b x y : ℕ) (hx : x < 0x100000000) (hy : y < 0x100000000) where
  compare_low-compare_ℤ :
      compare_low (compare_ℤ (pos a) (pos b)) x y
      ≡ compare_ℤ (pos (x + 0x100000000 * a)) (pos (y + 0x100000000 * b))
  compare_low-compare_ℤ = ground arith

compare_limbs-compare_ℤ :
    (left right : List ℕ)
    → IsLimbs left
    → IsLimbs right
    → length left ≡ length right
    → compare_limbs left right ≡ compare_ℤ (pos (value left)) (pos (value right))
unfolding compare_limbs
compare_limbs-compare_ℤ [] [] hl hr h = refl
compare_limbs-compare_ℤ [] (y ∷ right) hl hr h = absurd (omega arith)
compare_limbs-compare_ℤ (x ∷ left) [] hl hr h = absurd (omega arith)
compare_limbs-compare_ℤ (x ∷ left) (y ∷ right) (hx, hl) (hy, hr) h =
    rw (compare_limbs-compare_ℤ left right hl hr (omega arith))
      (compare_low-compare_ℤ (value left) (value right) x y hx hy)

less_ℤ : (m n : ℕ) → m < n → negsuc 0 ≡ compare_ℤ (pos m) (pos n)
less_ℤ m n h = ground arith

greater_ℤ : (m n : ℕ) → n < m → pos 1 ≡ compare_ℤ (pos m) (pos n)
greater_ℤ m n h = ground arith

compare_counts :
    (left right : List ℕ)
    → IsLimbs left
    → IsLimbs right
    → IsTrimmed left
    → IsTrimmed right
    → (if ltb (length left) (length right)
        then negsuc 0
        else if ltb (length right) (length left)
        then pos 1
        else compare_limbs left right)
      ≡ compare_ℤ (pos (value left)) (pos (value right))
compare_counts left right hl hr kl kr = elim (Bool-cases (ltb (length left) (length right))) [
  | inl e ↦ rw e (less_ℤ _ _ (value-longer left right hl kr (ltb→lt _ _ e)))
  | inr e ↦ rw e (elim (Bool-cases (ltb (length right) (length left))) [
    | inl f ↦ rw f (greater_ℤ _ _ (value-longer right left hr kl (ltb→lt _ _ f)))
    | inr f ↦ rw f (compare_limbs-compare_ℤ left right hl hr (ground arith))
  ])
]

pub compare_abs_limbs-compare_ℤ :
    (left right : List ℕ)
    → IsLimbs left
    → IsLimbs right
    → compare_abs_limbs left right ≡ compare_ℤ (pos (value left)) (pos (value right))
unfolding compare_abs_limbs
compare_abs_limbs-compare_ℤ left right hl hr =
    rw (← value-trim left, ← value-trim right)
      (compare_counts (trim left) (trim right) (trim-IsLimbs left hl) (trim-IsLimbs right hr)
        (trim-IsTrimmed left) (trim-IsTrimmed right))

-- Two trimmed lists of limbs that denote one number are one list.
pub value-injective :
    (left right : List ℕ)
    → IsLimbs left
    → IsLimbs right
    → IsTrimmed left
    → IsTrimmed right
    → value left ≡ value right
    → left ≡ right
value-injective [] [] hl hr kl kr e = refl
value-injective [] (y ∷ right) hl hr kl (ty, kr) e = absurd (omega arith)
value-injective (x ∷ left) [] hl hr (tx, kl) kr e = absurd (omega arith)
value-injective (x ∷ left) (y ∷ right) (hx, hl) (hy, hr) (tx, kl) (ty, kr) e =
    let same : x ≡ y = omega arith in
    let rest = value-injective left right hl hr kl kr (omega arith) in cc

equal_ℤ : (m n : ℕ) → m ≡ n → pos 0 ≡ compare_ℤ (pos m) (pos n)
equal_ℤ m n h = ground arith

module _ (left right : List ℕ) (hl : IsLimbs left) (hr : IsLimbs right) where
  pub compare_abs_less : value left < value right → compare_abs_limbs left right ≡ negsuc 0
  compare_abs_less h =
      compare_abs_limbs-compare_ℤ left right hl hr ∙ sym (less_ℤ (value left) (value right) h)

  pub compare_abs_greater : value right < value left → compare_abs_limbs left right ≡ pos 1
  compare_abs_greater h =
      compare_abs_limbs-compare_ℤ left right hl hr ∙ sym (greater_ℤ (value left) (value right) h)

  pub compare_abs_equal : value left ≡ value right → compare_abs_limbs left right ≡ pos 0
  compare_abs_equal h =
      compare_abs_limbs-compare_ℤ left right hl hr ∙ sym (equal_ℤ (value left) (value right) h)
