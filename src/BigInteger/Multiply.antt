-- ===== src/BigInteger/Multiply.antt =====
-- `LT_Integer_multiply` (src/classes/BigInteger.c) against the product of the signed integers.
use list_talk.Common.{
  ℕ, ◌+◌, ◌*◌, ◌<◌, Bool, true, ◌&&◌, ◌||◌, List, [], ◌∷◌, ◌==◌, if◌then◌else◌, length, ◌≡◌, refl,
  ap, sym, ◌∙◌, arith, Bool-cases, inl, inr,
}
use list_talk.Common.Int.{ℤ, pos, signed, xor, ◌*ℤ◌, signed-mul}
use list_talk.BigInteger.{Integer, fixnum, in_range, integer_ref, make_integer_from_limbs}
use list_talk.BigInteger.Limbs.{u32, u64, high, is_empty, low_limb, multiply_abs_limbs}
use list_talk.BigInteger.Magnitude.{value, IsLimbs}
use list_talk.BigInteger.Products.{value-multiply_abs_limbs, product_bound}
use list_talk.BigInteger.Canonical.{
  to_int, fixnum_of, IsInteger, Stands, limbs_fit_fixnum-fixnum_of, make_integer-Stands,
  signed_zero, integer_ref-ref_int, integer_ref-IsRef,
}
use list_talk.BigInteger.Operations.{fixnum_or, multiply_single, integer_multiply}

module _ (s : Bool) (x y : ℕ) (hx : x < 0x100000000) (hy : y < 0x100000000) where
  top_limb-IsLimbs :
      (low top : ℕ)
      → low < 0x100000000
      → top < 0x100000000
      → (value (if top == 0 then low ∷ [] else low ∷ top ∷ []) ≡ low + 0x100000000 * top)
        × IsLimbs (if top == 0 then low ∷ [] else low ∷ top ∷ [])
  top_limb-IsLimbs low top hl ht = elim (Bool-cases (top == 0)) [
    | inl e ↦ rw e (ground arith, (hl, tt))
    | inr e ↦ rw e (omega arith, (hl, (ht, tt)))
  ]

  fixnum_or-Stands :
      (n : ℤ) (other : Integer) → Stands other n → Stands (fixnum_or (fixnum_of n) other) n
  fixnum_or-Stands n other h = elim (Bool-cases (in_range n)) [
    | inl e ↦ rw e (refl, e)
    | inr e ↦ rw e h
  ]

  multiply_single-Stands : Stands (multiply_single s x y) (signed s (x * y))
  unfolding multiply_single
  multiply_single-Stands =
      let product = u64 (x * y) in
      let low = u32 product in
      let top = u32 (high product) in
      let bound = product_bound x y hx hy in
      let parts : low + 0x100000000 * top ≡ x * y = omega arith in
      let pair : low + 0x100000000 * (top + 0x100000000 * 0) ≡ x * y = omega arith in
      let trimmed = top_limb-IsLimbs low top (omega arith) (omega arith) in
      rw (limbs_fit_fixnum-fixnum_of s (low ∷ top ∷ []) (omega arith, (omega arith, tt)), pair)
        (fixnum_or-Stands (signed s (x * y))
          (make_integer_from_limbs s (if top == 0 then low ∷ [] else low ∷ top ∷ []))
          (make_integer-Stands s (if top == 0 then low ∷ [] else low ∷ top ∷ []) trimmed.1
            (trimmed.0 ∙ parts)))

value_empty :
    (left right : List ℕ) → (is_empty left || is_empty right) ≡ true → value left * value right ≡ 0
value_empty [] right h = omega arith
value_empty (x ∷ left) [] h = omega arith
value_empty (x ∷ left) (y ∷ right) h = absurd (ground arith)

value_single :
    (limbs : List ℕ)
    → IsLimbs limbs
    → length limbs ≡ 1
    → (value limbs ≡ low_limb limbs) × (low_limb limbs < 0x100000000)
value_single [] h e = absurd (omega arith)
value_single (x ∷ []) (hx, h) e = (omega arith, hx)
value_single (x ∷ y ∷ limbs) h e = absurd (omega arith)

zero_product : (s : Bool) (n : ℕ) → n ≡ 0 → Stands (fixnum (pos 0)) (signed s n)
unfolding in_range
zero_product s n h = (signed_zero s ∙ ap (signed s) (sym h), refl)

module _ (s : Bool) (left right : List ℕ) (hl : IsLimbs left) (hr : IsLimbs right) where
  multiply_limbs-Stands :
      Stands
        (if is_empty left || is_empty right
          then fixnum (pos 0)
          else if (length left == 1) && (length right == 1)
          then multiply_single s (low_limb left) (low_limb right)
          else make_integer_from_limbs s (multiply_abs_limbs left right))
        (signed s (value left * value right))
  multiply_limbs-Stands = elim (Bool-cases (is_empty left || is_empty right)) [
    | inl e ↦ rw e (zero_product s (value left * value right) (value_empty left right e))
    | inr e ↦ rw e (elim (Bool-cases ((length left == 1) && (length right == 1))) [
      | inl f ↦
          let l = value_single left hl (ground arith) in
          let r = value_single right hr (ground arith) in
          rw (f, l.0, r.0) (multiply_single-Stands s (low_limb left) (low_limb right) l.1 r.1)
      | inr f ↦
          let product = value-multiply_abs_limbs left right hl hr in
          rw f (make_integer-Stands s (multiply_abs_limbs left right) product.1 product.0)
    ])
  ]

module _ (left right : Integer) (hl : IsInteger left) (hr : IsInteger right) where
  pub integer_multiply-Stands : Stands (integer_multiply left right) (to_int left *ℤ to_int right)
  unfolding integer_multiply
  integer_multiply-Stands =
      let lhs = integer_ref left in
      let rhs = integer_ref right in
      rw
        (
          ← integer_ref-ref_int left hl,
          ← integer_ref-ref_int right hr,
          signed-mul lhs.negative rhs.negative (value lhs.limbs) (value rhs.limbs),
        )
        (multiply_limbs-Stands (xor lhs.negative rhs.negative) lhs.limbs rhs.limbs
          (integer_ref-IsRef left hl).0 (integer_ref-IsRef right hr).0)
