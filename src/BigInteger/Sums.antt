-- ===== src/BigInteger/Sums.antt =====
-- `LT_Integer_add` and `LT_Integer_subtract` (src/classes/BigInteger.c) against the sum and the
-- difference of the signed integers.
use list_talk.Common.{
  ℕ, ◌-◌, Bool, true, false, not, ◌&&◌, List, ltb, leb, ltb→lt, if◌then◌else◌, length, ◌≡◌, refl,
  ap, sym, ◌∙◌, arith, Bool-cases, inl, inr,
}
use list_talk.Common.Int.{
  ℤ, pos, signed, xor, ◌+ℤ◌, ◌-ℤ◌, signed-add, signed-sub_left, signed-sub_right, neg-signed,
}
use list_talk.BigInteger.{
  Integer, fixnum, IntegerRef, in_range, integer_ref, make_integer_from_limbs,
}
use list_talk.BigInteger.Limbs.{compare_abs_limbs, add_abs_limbs, subtract_abs_limbs}
use list_talk.BigInteger.Magnitude.{
  value, IsLimbs, value-add_abs_limbs, value-subtract_abs_limbs, add_abs-IsLimbs,
  subtract_abs-IsLimbs,
}
use list_talk.BigInteger.Order.{compare_abs_less, compare_abs_greater, compare_abs_equal}
use list_talk.BigInteger.Canonical.{
  to_int, fixnum_of, IsInteger, IsRef, ref_int, Stands, limbs_fit_fixnum-fixnum_of,
  make_integer-Stands, signed_zero, integer_ref-ref_int, integer_ref-IsRef,
}
use list_talk.BigInteger.Operations.{
  small_result, fast_path, fixnum_or, subtract_larger, add_refs, subtract_refs, integer_add,
  integer_subtract,
}

module _ (op : ℤ → ℤ → ℤ) where
  small_result-Stands :
      (a b : ℤ) (other : Integer)
      → Stands other (op a b)
      → Stands (fixnum_or (small_result op (fixnum_of a) (fixnum_of b)) other) (op a b)
  small_result-Stands a b other h = elim (Bool-cases (in_range a)) [
    | inr e ↦ rw e h
    | inl e ↦ rw e (elim (Bool-cases (in_range b)) [
      | inr f ↦ rw f h
      | inl f ↦
          rw f (elim (Bool-cases (in_range (op a b))) [ inr g ↦ rw g h | inl g ↦ rw g (refl, g) ])
    ])
  ]

  fast_path-Stands :
      (lhs rhs : IntegerRef) (other : Integer)
      → IsRef lhs
      → IsRef rhs
      → Stands other (op (ref_int lhs) (ref_int rhs))
      → Stands (fixnum_or (fast_path op lhs rhs) other) (op (ref_int lhs) (ref_int rhs))
  unfolding fast_path
  fast_path-Stands lhs rhs other hl hr h =
      elim (Bool-cases (leb (length lhs.limbs) 2 && leb (length rhs.limbs) 2)) [
        | inr e ↦ rw e h
        | inl e ↦
            rw
              (
                e,
                limbs_fit_fixnum-fixnum_of lhs.negative lhs.limbs hl.0,
                limbs_fit_fixnum-fixnum_of rhs.negative rhs.limbs hr.0,
              )
              (small_result-Stands (ref_int lhs) (ref_int rhs) other h)
      ]

module _ (left right : List ℕ) (hl : IsLimbs left) (hr : IsLimbs right) where
  add_same-Stands :
      (s : Bool)
      → Stands
          (make_integer_from_limbs s (add_abs_limbs left right))
          (signed s (value left) +ℤ signed s (value right))
  add_same-Stands s = rw (signed-add s (value left) (value right)) (
      make_integer-Stands s (add_abs_limbs left right) (add_abs-IsLimbs left right)
        (value-add_abs_limbs left right hl hr))

difference_zero : (s : Bool) (m n : ℕ) → m ≡ n → Stands (fixnum (pos 0)) (signed s (m - n))
unfolding in_range
difference_zero s m n h =
    let nothing : m - n ≡ 0 = omega arith in (signed_zero s ∙ ap (signed s) (sym nothing), refl)

module _ (s : Bool) (left right : List ℕ) (hl : IsLimbs left) (hr : IsLimbs right) where
  subtract_larger-Stands :
      Stands
        (subtract_larger (compare_abs_limbs left right) s (not s) left right)
        (signed s (value left) +ℤ signed (not s) (value right))
  unfolding subtract_larger
  subtract_larger-Stands =
      let m = value left in
      let n = value right in
      elim (Bool-cases (ltb m n)) [
        | inl e ↦
            rw
              (
                compare_abs_less left right hl hr (ltb→lt m n e),
                signed-sub_right s m n (ground arith),
              )
              (make_integer-Stands (not s) (subtract_abs_limbs right left)
                (subtract_abs-IsLimbs right left)
                (value-subtract_abs_limbs right left hr hl (ground arith)))
        | inr e ↦ elim (Bool-cases (ltb n m)) [
          | inl f ↦
              rw
                (
                  compare_abs_greater left right hl hr (ltb→lt n m f),
                  signed-sub_left s m n (ground arith),
                )
                (make_integer-Stands s (subtract_abs_limbs left right)
                  (subtract_abs-IsLimbs left right)
                  (value-subtract_abs_limbs left right hl hr (ground arith)))
          | inr f ↦
              let same : m ≡ n = ground arith in
              rw (compare_abs_equal left right hl hr same, signed-sub_left s m n (ground arith))
                (difference_zero s m n same)
        ]
      ]

module _ (left right : List ℕ) (hl : IsLimbs left) (hr : IsLimbs right) where
  add_signed-Stands :
      (s t : Bool)
      → Stands
          (if not (xor s t)
            then make_integer_from_limbs s (add_abs_limbs left right)
            else subtract_larger (compare_abs_limbs left right) s t left right)
          (signed s (value left) +ℤ signed t (value right))
  add_signed-Stands false false = add_same-Stands left right hl hr false
  add_signed-Stands false true = subtract_larger-Stands false left right hl hr
  add_signed-Stands true false = subtract_larger-Stands true left right hl hr
  add_signed-Stands true true = add_same-Stands left right hl hr true

  subtract_signed-Stands :
      (s t : Bool)
      → Stands
          (if xor s t
            then make_integer_from_limbs s (add_abs_limbs left right)
            else subtract_larger (compare_abs_limbs left right) s (not t) left right)
          (signed s (value left) -ℤ signed t (value right))
  unfolding ◌-ℤ◌
  subtract_signed-Stands false false =
      rw (neg-signed false (value right)) (subtract_larger-Stands false left right hl hr)
  subtract_signed-Stands false true =
      rw (neg-signed true (value right)) (add_same-Stands left right hl hr false)
  subtract_signed-Stands true false =
      rw (neg-signed false (value right)) (add_same-Stands left right hl hr true)
  subtract_signed-Stands true true =
      rw (neg-signed true (value right)) (subtract_larger-Stands true left right hl hr)

module _ (left right : Integer) (hl : IsInteger left) (hr : IsInteger right) where
  pub integer_add-Stands : Stands (integer_add left right) (to_int left +ℤ to_int right)
  unfolding integer_add add_refs
  integer_add-Stands =
      let lhs = integer_ref-IsRef left hl in
      let rhs = integer_ref-IsRef right hr in
      rw (← integer_ref-ref_int left hl, ← integer_ref-ref_int right hr)
        (fast_path-Stands ◌+ℤ◌ (integer_ref left) (integer_ref right)
          (add_refs (integer_ref left) (integer_ref right)) lhs rhs
          (add_signed-Stands (integer_ref left).limbs (integer_ref right).limbs lhs.0 rhs.0
            (integer_ref left).negative (integer_ref right).negative))

  pub integer_subtract-Stands : Stands (integer_subtract left right) (to_int left -ℤ to_int right)
  unfolding integer_subtract subtract_refs
  integer_subtract-Stands =
      let lhs = integer_ref-IsRef left hl in
      let rhs = integer_ref-IsRef right hr in
      rw (← integer_ref-ref_int left hl, ← integer_ref-ref_int right hr)
        (fast_path-Stands ◌-ℤ◌ (integer_ref left) (integer_ref right)
          (subtract_refs (integer_ref left) (integer_ref right)) lhs rhs
          (subtract_signed-Stands (integer_ref left).limbs (integer_ref right).limbs lhs.0 rhs.0
            (integer_ref left).negative (integer_ref right).negative))
