-- ===== src/BigInteger/Tests.antt =====
-- Concrete integers, and the operations of src/classes/BigInteger.c on them.
use list_talk.Common.{true, false, [], ◌∷◌, none, some, ◌≡◌, refl, arith}
use list_talk.Common.Int.{pos, negsuc, neg, ◌+ℤ◌, ◌-ℤ◌, ◌*ℤ◌}
use list_talk.BigInteger.{Integer, fixnum, big, in_range, integer_ref, make_integer_from_limbs}
use list_talk.BigInteger.Limbs.{trim}
use list_talk.BigInteger.Canonical.{to_int, IsInteger, Stands}
use list_talk.BigInteger.Operations.{
  integer_add, integer_subtract, integer_multiply, integer_is_zero, integer_negative_p, integer_abs,
  integer_negate, integer_compare,
}
use list_talk.BigInteger.Divide.{integer_divmod, divide_abs_values, divide_long, count_bits}
use list_talk.BigInteger.Division.{DivModResult, integer_divmod-DivModResult}
use list_talk.BigInteger.Signs.{integer_compare-compare_ℤ, integer_negate-Stands}
use list_talk.BigInteger.Digits.{
  new_from_digits, from_signed, from_unsigned, digits_loop, digit_value, multiply_by_small,
  multiply_small_loop,
}
use list_talk.BigInteger.Literals.{Reads, new_from_digits-Reads}
use list_talk.BigInteger.Widths.{integer_to_int64, integer_to_uint64, integer_to_uint32}
use list_talk.BigInteger.Arithmetic.{integer_arithmetic, integer_signs, integer_widths}

-- 2^64 + 3, and -(2^56 + 5).
abbrev three_limbs : Integer
three_limbs = big false (3 ∷ 0 ∷ 1 ∷ [])

abbrev two_limbs : Integer
two_limbs = big true (5 ∷ 0x1000000 ∷ [])

three_limbs-IsInteger : IsInteger three_limbs
unfolding in_range
three_limbs-IsInteger = (
  (omega arith, (omega arith, (omega arith, tt))),
  ((omega arith, (omega arith, (omega arith, tt))), refl),
)

two_limbs-IsInteger : IsInteger two_limbs
unfolding in_range
two_limbs-IsInteger = ((omega arith, (omega arith, tt)), ((omega arith, (omega arith, tt)), refl))

abbrev least_fixnum : Integer
least_fixnum = fixnum (negsuc 0x7fffffffffffff)

least_fixnum-IsInteger : IsInteger least_fixnum
unfolding in_range
least_fixnum-IsInteger = refl

sum_carries :
    integer_add (big false (0xffffffff ∷ 0xffffffff ∷ [])) (fixnum (pos 1))
    ≡ big false (0 ∷ 0 ∷ 1 ∷ [])
unfolding integer_add
sum_carries = refl

difference_shrinks :
    integer_subtract (big false (0 ∷ 0 ∷ 1 ∷ [])) (big false (0xfffffffe ∷ 0xffffffff ∷ []))
    ≡ fixnum (pos 2)
unfolding integer_subtract
difference_shrinks = refl

long_quotient :
    integer_divmod three_limbs two_limbs
    ≡ some (fixnum (negsuc 254), big false (0xfffffb08 ∷ 0xffffff ∷ []))
unfolding integer_divmod integer_ref divide_abs_values trim make_integer_from_limbs divide_long
    count_bits
long_quotient = refl

literal_hex : new_from_digits (45 ∷ 102 ∷ 70 ∷ []) 16 ≡ some (fixnum (negsuc 254))
unfolding new_from_digits from_signed from_unsigned digits_loop digit_value integer_negate
    integer_add multiply_by_small ◌+ℤ◌ multiply_small_loop
literal_hex = refl

integer_divmod-DivModResult_example :
    DivModResult (integer_divmod three_limbs two_limbs) (to_int three_limbs) (to_int two_limbs)
integer_divmod-DivModResult_example =
    integer_divmod-DivModResult three_limbs two_limbs three_limbs-IsInteger two_limbs-IsInteger

integer_compare-compare_ℤ_example : integer_compare two_limbs three_limbs ≡ negsuc 0
integer_compare-compare_ℤ_example =
    integer_compare-compare_ℤ two_limbs three_limbs two_limbs-IsInteger three_limbs-IsInteger

integer_signs_example :
    Stands (integer_negate least_fixnum) (pos 0x80000000000000)
    × (Stands (integer_abs least_fixnum) (pos 0x80000000000000)
        × ((integer_is_zero least_fixnum ≡ false) × (integer_negative_p least_fixnum ≡ true)))
integer_signs_example = integer_signs least_fixnum least_fixnum-IsInteger

integer_widths_example :
    (integer_to_int64 least_fixnum ≡ some (negsuc 0x7fffffffffffff))
    × ((integer_to_uint64 least_fixnum ≡ none) × (integer_to_uint32 least_fixnum ≡ none))
integer_widths_example = integer_widths least_fixnum least_fixnum-IsInteger

negated_once : Stands (integer_negate three_limbs) (neg (to_int three_limbs))
negated_once = integer_negate-Stands three_limbs three_limbs-IsInteger

negated_twice :
    Stands (integer_negate (integer_negate three_limbs)) (neg (to_int (integer_negate three_limbs)))
negated_twice = integer_negate-Stands (integer_negate three_limbs) negated_once.1

new_from_digits-Reads_example : Reads (new_from_digits (45 ∷ 49 ∷ 65 ∷ 97 ∷ []) 16) (negsuc 425)
new_from_digits-Reads_example =
    new_from_digits-Reads false 1 16 ((true, 10) ∷ (false, 10) ∷ []) (omega arith) (omega arith)
      (omega arith, (omega arith, (omega arith, tt))) true

integer_arithmetic_example :
    Stands (integer_add three_limbs two_limbs) (to_int three_limbs +ℤ to_int two_limbs)
    × (Stands (integer_subtract three_limbs two_limbs) (to_int three_limbs -ℤ to_int two_limbs)
        × Stands (integer_multiply three_limbs two_limbs) (to_int three_limbs *ℤ to_int two_limbs))
integer_arithmetic_example =
    integer_arithmetic three_limbs two_limbs three_limbs-IsInteger two_limbs-IsInteger
