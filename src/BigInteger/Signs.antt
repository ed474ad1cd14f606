-- ===== src/BigInteger/Signs.antt =====
-- Comparison, negation and the tests on the sign (src/classes/BigInteger.c) against the signed
-- integers.
use list_talk.Common.{
  ℕ, suc, ◌+◌, Bool, true, false, not, ◌&&◌, List, [], ◌∷◌, ◌==◌, if◌then◌else◌, ◌≡◌, refl, ap, sym,
  ◌∙◌, arith, Bool-cases, inl, inr,
}
use list_talk.Common.Int.{
  pos, negsuc, is_negative, neg_part, magnitude, signed, neg, xor, compare_ℤ, neg-signed,
  magnitude-signed,
}
use list_talk.BigInteger.{
  Integer, fixnum, big, fixnum_max, in_range, integer_ref, make_integer_from_limbs,
}
use list_talk.BigInteger.Limbs.{u32, high, is_empty}
use list_talk.BigInteger.Magnitude.{value, IsLimbs, IsTrimmed}
use list_talk.BigInteger.Order.{compare_abs_limbs-compare_ℤ}
use list_talk.BigInteger.Canonical.{
  to_int, IsInteger, Stands, make_integer-Stands, integer_ref-ref_int, integer_ref-IsRef,
}
use list_talk.BigInteger.Operations.{
  integer_is_zero, integer_negative_p, integer_compare, negated_minimum, integer_abs, negate_ref,
  integer_negate,
}

is_empty-value : (limbs : List ℕ) → IsTrimmed limbs → is_empty limbs ≡ (value limbs == 0)
is_empty-value [] h = refl
is_empty-value (x ∷ limbs) (hx, h) = ground arith

compare_signs :
    (s t : Bool) (m n : ℕ)
    → (if (m == 0) && (n == 0)
        then pos 0
        else if xor s t
        then if s then negsuc 0 else pos 1
        else if s
        then neg (compare_ℤ (pos m) (pos n))
        else compare_ℤ (pos m) (pos n))
      ≡ compare_ℤ (signed s m) (signed t n)
compare_signs false false m n = ground arith
compare_signs false true m n = ground arith
compare_signs true false m n = ground arith
compare_signs true true m n = ground arith

-- For integers in canonical form, `LT_Integer_compare` answers -1, 0 or 1 as the number on the left
-- is below, equal to or above the one on the right.
pub integer_compare-compare_ℤ :
    (left right : Integer)
    → IsInteger left
    → IsInteger right
    → integer_compare left right ≡ compare_ℤ (to_int left) (to_int right)
unfolding integer_compare
integer_compare-compare_ℤ left right hl hr =
    let lhs = integer_ref left in
    let rhs = integer_ref right in
    let l = integer_ref-IsRef left hl in
    let r = integer_ref-IsRef right hr in
    rw
      (
        ← integer_ref-ref_int left hl,
        ← integer_ref-ref_int right hr,
        is_empty-value lhs.limbs l.1,
        is_empty-value rhs.limbs r.1,
        compare_abs_limbs-compare_ℤ lhs.limbs rhs.limbs l.0 r.0,
      )
      (compare_signs lhs.negative rhs.negative (value lhs.limbs) (value rhs.limbs))

negated_minimum-Stands : Stands negated_minimum (pos (suc fixnum_max))
unfolding negated_minimum
negated_minimum-Stands =
    make_integer-Stands false (u32 (suc fixnum_max) ∷ u32 (high (suc fixnum_max)) ∷ [])
      (omega arith, (omega arith, tt)) refl

negate_signed :
    (v : Integer) (s : Bool) (limbs : List ℕ)
    → IsInteger v
    → IsLimbs limbs
    → IsTrimmed limbs
    → signed s (value limbs) ≡ to_int v
    → Stands (if is_empty limbs then v else make_integer_from_limbs (not s) limbs) (neg (to_int v))
negate_signed v false [] hv h t e = rw (← e) (refl, hv)
negate_signed v true [] hv h t e = rw (← e) (refl, hv)
negate_signed v s (x ∷ limbs) hv h t e =
    rw (← e, neg-signed s (value (x ∷ limbs))) (make_integer-Stands (not s) (x ∷ limbs) h refl)

negate_ref-Stands : (v : Integer) → IsInteger v → Stands (negate_ref v) (neg (to_int v))
unfolding negate_ref
negate_ref-Stands v h =
    let ref = integer_ref v in
    let r = integer_ref-IsRef v h in
    negate_signed v ref.negative ref.limbs h r.0 r.1 (integer_ref-ref_int v h)

pub integer_negate-Stands : (v : Integer) → IsInteger v → Stands (integer_negate v) (neg (to_int v))
unfolding integer_negate
integer_negate-Stands (big s limbs) h = negate_ref-Stands (big s limbs) h
integer_negate-Stands (fixnum v) h = elim (Bool-cases (magnitude v == 0)) [
  | inl e ↦ rw e (ground arith, h)
  | inr e ↦ rw e (elim (Bool-cases (neg_part v == suc fixnum_max)) [
    | inl f ↦
        let least : neg v ≡ pos (suc fixnum_max) = ground arith in
        rw (f, least) negated_minimum-Stands
    | inr f ↦ rw f (elim (Bool-cases (in_range (neg v))) [
      | inl g ↦ rw g (refl, g)
      | inr g ↦ rw g (negate_ref-Stands (fixnum v) h)
    ])
  ])
]

pub integer_abs-Stands :
    (v : Integer) → IsInteger v → Stands (integer_abs v) (pos (magnitude (to_int v)))
unfolding integer_abs in_range
integer_abs-Stands (fixnum (pos n)) h = (ground arith, h)
integer_abs-Stands (fixnum (negsuc n)) h = elim (Bool-cases (suc n == suc fixnum_max)) [
  | inl f ↦
      let least : 0 + suc n ≡ suc fixnum_max = ground arith in rw (f, least) negated_minimum-Stands
  | inr f ↦ rw f (ground arith, ground arith)
]
integer_abs-Stands (big false limbs) h = (ground arith, h)
integer_abs-Stands (big true limbs) (h, (t, e)) =
    rw (magnitude-signed true (value limbs)) (make_integer-Stands false limbs h refl)

pub integer_is_zero_iff :
    (v : Integer) → IsInteger v → integer_is_zero v ≡ (magnitude (to_int v) == 0)
unfolding integer_is_zero
integer_is_zero_iff (fixnum n) h = refl
integer_is_zero_iff (big s limbs) (h, (t, e)) =
    rw (magnitude-signed s (value limbs)) (is_empty-value limbs t)

negative_sign : (s : Bool) (n : ℕ) → (s && not (n == 0)) ≡ is_negative (signed s n)
negative_sign s n = ground arith

pub integer_negative_p_iff :
    (v : Integer) → IsInteger v → integer_negative_p v ≡ is_negative (to_int v)
unfolding integer_negative_p
integer_negative_p_iff (fixnum n) h = refl
integer_negative_p_iff (big s limbs) (h, (t, e)) =
    rw (is_empty-value limbs t) (negative_sign s (value limbs))

-- A reference without limbs is that of zero.
pub integer_ref-is_empty :
    (v : Integer) → IsInteger v → is_empty (integer_ref v).limbs ≡ (magnitude (to_int v) == 0)
integer_ref-is_empty v h =
    let ref = integer_ref v in
    let number : value ref.limbs ≡ magnitude (to_int v) =
      sym (magnitude-signed ref.negative (value ref.limbs))
      ∙ ap magnitude (integer_ref-ref_int v h) in
    rw (← number) (is_empty-value ref.limbs (integer_ref-IsRef v h).1)
