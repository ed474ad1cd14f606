-- ===== src/BigInteger/Divide.antt =====
-- Division of magnitudes and of integers (src/classes/BigInteger.c): the linear scan for a divisor
-- of one limb, and the binary long division for the others.
use list_talk.Common.{
  ℕ, zero, suc, ◌+◌, ◌-◌, ◌*◌, ◌%◌, ◌/◌, ◌^◌, Bool, not, List, [], ◌∷◌, Option, none, some, ◌==◌,
  if◌then◌else◌, length, get_or, set, replicate, bit_or, bit_and, ◌++◌,
}
use list_talk.Common.Int.{is_negative, xor}
use list_talk.BigInteger.{Integer, integer_ref, make_integer_from_limbs}
use list_talk.BigInteger.Limbs.{
  u32, u64, high, is_empty, trim, low_limb, compare_abs_limbs, subtract_abs_limbs,
}

-- The loop of `bit_length_abs` over the bits of the top limb; the fuel is the width of a limb.
unfoldable pub count_bits : ℕ → ℕ → ℕ
count_bits zero top = 0
count_bits (suc fuel) top = let rest = count_bits fuel (top / 2) in if top == 0 then 0 else suc rest

-- `bit_length_abs`
unfoldable pub bit_length_abs : List ℕ → ℕ
bit_length_abs limbs =
    let limbs = trim limbs in
    let top = get_or limbs (length limbs - 1) 0 in
    if is_empty limbs then 0 else (length limbs - 1) * 32 + count_bits 32 top

-- The loop of `shift_left_abs`: `carry` is what the limb below has put in this place.
unfoldable pub shift_left_loop : ℕ → ℕ → List ℕ → List ℕ
shift_left_loop bit_shift carry [] = carry ∷ []
shift_left_loop bit_shift carry (x ∷ limbs) =
    let shifted = u64 (x * 2 ^ bit_shift) in
    bit_or (u32 shifted) carry ∷ shift_left_loop bit_shift (u32 (high shifted)) limbs

-- `shift_left_abs`
unfoldable pub shift_left_abs : List ℕ → ℕ → List ℕ
unfolding trim shift_left_loop
shift_left_abs limbs shift_bits =
    let word_shift = shift_bits / 32 in
    let bit_shift = shift_bits % 32 in
    if is_empty limbs
    then []
    else if bit_shift == 0
    then trim (replicate word_shift 0 ++ limbs)
    else trim (replicate word_shift 0 ++ shift_left_loop bit_shift 0 limbs)

-- The loop of `shift_right_one_inplace`, with the carry that the lowest limb leaves.
unfoldable pub shift_right_loop : List ℕ → List ℕ × ℕ
shift_right_loop [] = ([], 0)
shift_right_loop (x ∷ limbs) =
    let above = shift_right_loop limbs in
    (bit_or (u32 (above.1 * 2 ^ 31)) (x / 2) ∷ above.0, bit_and x 1)

-- `shift_right_one_inplace`
unfoldable pub shift_right_one : List ℕ → List ℕ
unfolding trim shift_right_loop
shift_right_one limbs = trim (shift_right_loop limbs).0

-- The loop for a divisor of one limb: the quotient limbs and the remainder.
unfoldable pub scan_limbs : ℕ → List ℕ → List ℕ × ℕ
scan_limbs d [] = ([], 0)
scan_limbs d (x ∷ limbs) =
    let above = scan_limbs d limbs in
    let cur = bit_or (u64 (above.1 * 2 ^ 32)) x in (u32 (cur / d) ∷ above.0, cur % d)

-- `quotient[shift / 32] |= (uint32_t)1 << (shift % 32)`
unfoldable pub set_bit : List ℕ → ℕ → List ℕ
set_bit quotient shift =
    let index = shift / 32 in
    set quotient index (bit_or (get_or quotient index 0) (2 ^ (shift % 32)))

-- What the test in the loop of the long division does to the remainder and the quotient.
unfoldable pub long_step : ℕ → List ℕ → List ℕ → List ℕ → List ℕ × List ℕ
unfolding compare_abs_limbs subtract_abs_limbs set_bit
long_step shift remainder divisor quotient =
    if not (is_negative (compare_abs_limbs remainder divisor))
    then (set_bit quotient shift, subtract_abs_limbs remainder divisor)
    else (quotient, remainder)

-- The loop of the long division: the quotient, not yet trimmed, and the remainder.
unfoldable pub long_loop : ℕ → List ℕ → List ℕ → List ℕ → List ℕ × List ℕ
unfolding long_step shift_right_one
long_loop zero remainder divisor quotient = long_step 0 remainder divisor quotient
long_loop (suc shift) remainder divisor quotient =
    let step = long_step (suc shift) remainder divisor quotient in
    long_loop shift step.1 (shift_right_one divisor) step.0

-- The part of `divide_abs_values` for a divisor of one limb.
unfoldable pub divide_single : List ℕ → ℕ → List ℕ × List ℕ
unfolding trim scan_limbs
divide_single dividend d =
    let scan = scan_limbs d dividend in
    if is_empty dividend
    then ([], [])
    else (trim scan.0, if not (scan.1 == 0) then u32 scan.1 ∷ [] else [])

-- The part of `divide_abs_values` for a longer divisor.
unfoldable pub divide_long : List ℕ → List ℕ → List ℕ × List ℕ
unfolding trim compare_abs_limbs bit_length_abs shift_left_abs long_loop
divide_long dividend divisor =
    let shift = bit_length_abs dividend - bit_length_abs divisor in
    let loop =
      long_loop shift dividend (shift_left_abs divisor shift) (replicate (shift / 32 + 1) 0) in
    if is_negative (compare_abs_limbs dividend divisor)
    then ([], dividend)
    else (trim loop.0, loop.1)

-- `divide_abs_values`: the quotient and the remainder, or none for `LT_error`.
unfoldable pub divide_abs_values : List ℕ → List ℕ → Option (List ℕ × List ℕ)
divide_abs_values dividend divisor =
    let dividend_limbs = trim dividend in
    let divisor_limbs = trim divisor in
    if is_empty divisor
    then none
    else if is_empty divisor_limbs
    then none
    else if length divisor_limbs == 1
    then some (divide_single dividend_limbs (low_limb divisor_limbs))
    else some (divide_long dividend_limbs divisor_limbs)

-- The results that `LT_Integer_divmod` stores.
abbrev pub divmod_results : Bool → Bool → Option (List ℕ × List ℕ) → Option (Integer × Integer)
divmod_results left right none = none
divmod_results left right (some (quotient, remainder)) =
    some (make_integer_from_limbs (xor left right) quotient, make_integer_from_limbs left remainder)

-- `LT_Integer_divmod`
unfoldable pub integer_divmod : Integer → Integer → Option (Integer × Integer)
integer_divmod dividend divisor =
    let lhs = integer_ref dividend in
    let rhs = integer_ref divisor in
    if is_empty rhs.limbs
    then none
    else divmod_results lhs.negative rhs.negative (divide_abs_values lhs.limbs rhs.limbs)
