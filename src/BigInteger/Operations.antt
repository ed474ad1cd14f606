-- ===== src/BigInteger/Operations.antt =====
-- The operations on integers of src/classes/BigInteger.c, but for division and the texts.
use list_talk.Common.{
  ℕ, zero, suc, ◌*◌, Bool, false, not, ◌&&◌, ◌||◌, List, [], ◌∷◌, Option, none, some, leb, ◌==◌,
  if◌then◌else◌, length,
}
use list_talk.Common.Int.{ℤ, pos, negsuc, neg_part, is_negative, magnitude, neg, xor, ◌+ℤ◌, ◌-ℤ◌}
use list_talk.BigInteger.{
  Integer, fixnum, big, IntegerRef, fixnum_max, in_range, integer_ref, limbs_fit_fixnum,
  make_integer_from_limbs,
}
use list_talk.BigInteger.Limbs.{
  u32, u64, high, is_empty, low_limb, compare_abs_limbs, add_abs_limbs, subtract_abs_limbs,
  multiply_abs_limbs,
}

-- `LT_Integer_is_zero`
unfoldable pub integer_is_zero : Integer → Bool
unfolding integer_ref
integer_is_zero (fixnum v) = magnitude v == 0
integer_is_zero (big negative limbs) = is_empty (integer_ref (big negative limbs)).limbs

-- `LT_Integer_negative_p`
unfoldable pub integer_negative_p : Integer → Bool
unfolding integer_ref
integer_negative_p (fixnum v) = is_negative v
integer_negative_p (big negative limbs) =
    let ref = integer_ref (big negative limbs) in ref.negative && not (is_empty ref.limbs)

-- `LT_Integer_compare`
unfoldable pub integer_compare : Integer → Integer → ℤ
unfolding integer_ref compare_abs_limbs
integer_compare left right =
    let lhs = integer_ref left in
    let rhs = integer_ref right in
    if is_empty lhs.limbs && is_empty rhs.limbs
    then pos 0
    else if xor lhs.negative rhs.negative
    then if lhs.negative then negsuc 0 else pos 1
    else let abs_compare = compare_abs_limbs lhs.limbs rhs.limbs in
      if lhs.negative then neg abs_compare else abs_compare

-- The limbs of 2^55, which `LT_Integer_abs` and `LT_Integer_negate` write out.
unfoldable pub negated_minimum : Integer
unfolding make_integer_from_limbs
negated_minimum =
    let magnitude = suc fixnum_max in
    make_integer_from_limbs false (u32 magnitude ∷ u32 (high magnitude) ∷ [])

-- `LT_Integer_abs`
unfoldable pub integer_abs : Integer → Integer
unfolding integer_ref negated_minimum make_integer_from_limbs
integer_abs (fixnum v) =
    if not (is_negative v)
    then fixnum v
    else if neg_part v == suc fixnum_max
    then negated_minimum
    else fixnum (neg v)
integer_abs (big negative limbs) =
    let ref = integer_ref (big negative limbs) in
    if not ref.negative then big negative limbs else make_integer_from_limbs false ref.limbs

-- The end of `LT_Integer_negate`.
unfoldable pub negate_ref : Integer → Integer
unfolding integer_ref make_integer_from_limbs
negate_ref value =
    let ref = integer_ref value in
    if is_empty ref.limbs then value else make_integer_from_limbs (not ref.negative) ref.limbs

-- `LT_Integer_negate`
unfoldable pub integer_negate : Integer → Integer
unfolding negate_ref negated_minimum in_range
integer_negate (fixnum v) =
    if magnitude v == 0
    then fixnum v
    else if neg_part v == suc fixnum_max
    then negated_minimum
    else if in_range (neg v)
    then fixnum (neg v)
    else negate_ref (fixnum v)
integer_negate (big negative limbs) = negate_ref (big negative limbs)

-- The result of two small operands, when both fit and it is in range.
abbrev pub small_result : (ℤ → ℤ → ℤ) → Option ℤ → Option ℤ → Option ℤ
small_result op (some a) (some b) = if in_range (op a b) then some (op a b) else none
small_result op (some a) none = none
small_result op none b = none

-- The first branch of `LT_Integer_add` and `LT_Integer_subtract`, on operands of up to two limbs.
unfoldable pub fast_path : (ℤ → ℤ → ℤ) → IntegerRef → IntegerRef → Option ℤ
unfolding limbs_fit_fixnum
fast_path op lhs rhs =
    if leb (length lhs.limbs) 2 && leb (length rhs.limbs) 2
    then small_result op (limbs_fit_fixnum lhs.negative lhs.limbs)
        (limbs_fit_fixnum rhs.negative rhs.limbs)
    else none

abbrev pub fixnum_or : Option ℤ → Integer → Integer
fixnum_or (some small) other = fixnum small
fixnum_or none other = other

-- The subtraction after the comparison, with the signs that the two results take.
unfoldable pub subtract_larger : ℤ → Bool → Bool → List ℕ → List ℕ → Integer
unfolding make_integer_from_limbs subtract_abs_limbs
subtract_larger (pos zero) left_sign right_sign left right = fixnum (pos 0)
subtract_larger (pos (suc n)) left_sign right_sign left right =
    make_integer_from_limbs left_sign (subtract_abs_limbs left right)
subtract_larger (negsuc n) left_sign right_sign left right =
    make_integer_from_limbs right_sign (subtract_abs_limbs right left)

-- `LT_Integer_add` after its first branch.
unfoldable pub add_refs : IntegerRef → IntegerRef → Integer
unfolding make_integer_from_limbs add_abs_limbs compare_abs_limbs subtract_larger
add_refs lhs rhs =
    if not (xor lhs.negative rhs.negative)
    then make_integer_from_limbs lhs.negative (add_abs_limbs lhs.limbs rhs.limbs)
    else subtract_larger (compare_abs_limbs lhs.limbs rhs.limbs) lhs.negative rhs.negative lhs.limbs
        rhs.limbs

-- `LT_Integer_subtract` after its first branch.
unfoldable pub subtract_refs : IntegerRef → IntegerRef → Integer
unfolding make_integer_from_limbs add_abs_limbs compare_abs_limbs subtract_larger
subtract_refs lhs rhs =
    if xor lhs.negative rhs.negative
    then make_integer_from_limbs lhs.negative (add_abs_limbs lhs.limbs rhs.limbs)
    else subtract_larger (compare_abs_limbs lhs.limbs rhs.limbs) lhs.negative (not rhs.negative)
        lhs.limbs rhs.limbs

-- `LT_Integer_add`
unfoldable pub integer_add : Integer → Integer → Integer
unfolding integer_ref fast_path add_refs
integer_add left right =
    let lhs = integer_ref left in
    let rhs = integer_ref right in fixnum_or (fast_path (λ a b. a +ℤ b) lhs rhs) (add_refs lhs rhs)

-- `LT_Integer_subtract`
unfoldable pub integer_subtract : Integer → Integer → Integer
unfolding integer_ref fast_path subtract_refs
integer_subtract left right =
    let lhs = integer_ref left in
    let rhs = integer_ref right in
    fixnum_or (fast_path (λ a b. a -ℤ b) lhs rhs) (subtract_refs lhs rhs)

-- The branch of `LT_Integer_multiply` for operands of one limb.
unfoldable pub multiply_single : Bool → ℕ → ℕ → Integer
unfolding limbs_fit_fixnum make_integer_from_limbs
multiply_single negative x y =
    let product = u64 (x * y) in
    let low = u32 product in
    let top = u32 (high product) in
    fixnum_or (limbs_fit_fixnum negative (low ∷ top ∷ []))
      (make_integer_from_limbs negative (if top == 0 then low ∷ [] else low ∷ top ∷ []))

-- `LT_Integer_multiply`
unfoldable pub integer_multiply : Integer → Integer → Integer
unfolding integer_ref multiply_single make_integer_from_limbs multiply_abs_limbs
integer_multiply left right =
    let lhs = integer_ref left in
    let rhs = integer_ref right in
    if is_empty lhs.limbs || is_empty rhs.limbs
    then fixnum (pos 0)
    else if (length lhs.limbs == 1) && (length rhs.limbs == 1)
    then multiply_single (xor lhs.negative rhs.negative) (low_limb lhs.limbs) (low_limb rhs.limbs)
    else make_integer_from_limbs (xor lhs.negative rhs.negative)
        (multiply_abs_limbs lhs.limbs rhs.limbs)
