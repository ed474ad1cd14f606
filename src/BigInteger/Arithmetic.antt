-- ===== src/BigInteger/Arithmetic.antt =====
-- The operations of src/classes/BigInteger.c on integers in canonical form, each against the
-- operation on numbers.
use list_talk.Common.{◌≡◌, ◌==◌, ◌||◌, ◌&&◌, leb, suc, none, some, if◌then◌else◌}
use list_talk.Common.Int.{pos, pos_part, neg_part, is_negative, magnitude, neg, ◌+ℤ◌, ◌-ℤ◌, ◌*ℤ◌}
use list_talk.BigInteger.{Integer}
use list_talk.BigInteger.Canonical.{to_int, IsInteger, Stands}
use list_talk.BigInteger.Operations.{
  integer_add, integer_subtract, integer_multiply, integer_is_zero, integer_negative_p, integer_abs,
  integer_negate,
}
use list_talk.BigInteger.Sums.{integer_add-Stands, integer_subtract-Stands}
use list_talk.BigInteger.Multiply.{integer_multiply-Stands}
use list_talk.BigInteger.Signs.{
  integer_negate-Stands, integer_abs-Stands, integer_is_zero_iff, integer_negative_p_iff,
}
use list_talk.BigInteger.Widths.{
  int64_max, integer_to_int64, integer_to_uint64, integer_to_uint32, integer_to_int64_lem,
  integer_to_uint64_lem, integer_to_uint32_lem,
}

-- For integers in canonical form, the results of `LT_Integer_add`, `LT_Integer_subtract` and
-- `LT_Integer_multiply` stand for the sum, the difference and the product, and are in canonical
-- form again.
pub integer_arithmetic :
    (a b : Integer)
    → IsInteger a
    → IsInteger b
    → Stands (integer_add a b) (to_int a +ℤ to_int b)
      × (Stands (integer_subtract a b) (to_int a -ℤ to_int b)
          × Stands (integer_multiply a b) (to_int a *ℤ to_int b))
integer_arithmetic a b ha hb = (
  integer_add-Stands a b ha hb,
  (integer_subtract-Stands a b ha hb, integer_multiply-Stands a b ha hb),
)

-- For an integer in canonical form, the results of `LT_Integer_negate` and `LT_Integer_abs` stand
-- for the negated number and the absolute value and are in canonical form, also at the least
-- fixnum; `LT_Integer_is_zero` and `LT_Integer_negative_p` tell whether it is 0 or below.
pub integer_signs :
    (v : Integer)
    → IsInteger v
    → Stands (integer_negate v) (neg (to_int v))
      × (Stands (integer_abs v) (pos (magnitude (to_int v)))
          × ((integer_is_zero v ≡ (magnitude (to_int v) == 0))
              × (integer_negative_p v ≡ is_negative (to_int v))))
integer_signs v h = (
  integer_negate-Stands v h,
  (integer_abs-Stands v h, (integer_is_zero_iff v h, integer_negative_p_iff v h)),
)

-- For an integer in canonical form, `LT_Integer_to_int64`, `LT_Integer_to_uint64` and
-- `LT_Integer_to_uint32` give the number when it is in the range of the type, and fail otherwise.
pub integer_widths :
    (v : Integer)
    → IsInteger v
    → (integer_to_int64 v ≡ (
        if leb (pos_part (to_int v)) int64_max && leb (neg_part (to_int v)) (suc int64_max)
        then some (to_int v)
        else none))
      × ((integer_to_uint64 v ≡ (
            if is_negative (to_int v) || leb 0x10000000000000000 (magnitude (to_int v))
            then none
            else some (magnitude (to_int v))))
          × (integer_to_uint32 v ≡ (
              if is_negative (to_int v) || leb 0x100000000 (magnitude (to_int v))
              then none
              else some (magnitude (to_int v)))))
integer_widths v h =
    (integer_to_int64_lem v h, (integer_to_uint64_lem v h, integer_to_uint32_lem v h))
