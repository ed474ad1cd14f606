-- ===== src/BigInteger.antt =====
-- src/classes/BigInteger.c: integers of any size.
-- A magnitude is the list of its 32-bit limbs, the lowest first; a count and a pointer are the
-- list of that many limbs. A loop from the highest limb down looks at the rest of the list first.
pub mod Limbs
pub mod Magnitude
pub mod Order
pub mod Products
pub mod Canonical
pub mod Operations
pub mod Sums
pub mod Multiply
pub mod Signs
pub mod Divide
pub mod Shifts
pub mod BitLength
pub mod QuotientBits
pub mod LongDivision
pub mod Division
pub mod Widths
pub mod Digits
pub mod Literals
pub mod Arithmetic
mod Tests
pub mod Scan
use list_talk.Common.{
  ℕ, zero, suc, ◌+◌, ◌*◌, ◌/◌, ◌%◌, ◌<◌, Bool, true, false, not, ◌&&◌, List, [], ◌∷◌, Option, none,
  some, ltb, leb, ◌==◌, if◌then◌else◌, bit_or,
}
use list_talk.Common.Int.{ℤ, pos, negsuc, neg_part, pos_part, is_negative, magnitude, signed}
use list_talk.BigInteger.Limbs.{u32, u64, high, is_empty, trim}

-- `LT_VALUE_FIXNUM_MAX`, which is 2^55 - 1; `LT_VALUE_FIXNUM_MIN` is -2^55.
abbrev pub fixnum_max : ℕ
fixnum_max = 0x7fffffffffffff

-- `LT_SmallInteger_in_range`
unfoldable pub in_range : ℤ → Bool
in_range n = leb (pos_part n) fixnum_max && leb (neg_part n) (suc fixnum_max)

-- An `LT_Value` that is an integer: a fixnum, or a `LT_BigInteger` with its sign and limbs.
pub data Integer : Type 0 where
  fixnum : ℤ → Integer
  big : Bool → List ℕ → Integer

-- `LT_IntegerRef`
pub record IntegerRef : Type 0 where
  pub negative : Bool
  pub limbs : List ℕ

-- The limbs that `integer_ref_init` makes of the absolute value of a fixnum.
unfoldable pub small_limbs : ℕ → List ℕ
small_limbs magnitude =
    if magnitude == 0
    then []
    else if not (high magnitude == 0)
    then u32 magnitude ∷ u32 (high magnitude) ∷ []
    else u32 magnitude ∷ []

-- `integer_ref_init`
unfoldable pub integer_ref : Integer → IntegerRef
unfolding small_limbs
integer_ref (fixnum small) = record {
  negative = is_negative small;
  limbs = small_limbs (u64 (magnitude small));
}
integer_ref (big negative limbs) = record { negative = negative; limbs = limbs }

-- The end of `limbs_fit_fixnum`, on the absolute value.
unfoldable pub fit_magnitude : Bool → ℕ → Option ℤ
fit_magnitude false magnitude =
    if ltb fixnum_max magnitude then none else some (signed false magnitude)
fit_magnitude true magnitude =
    if ltb (suc fixnum_max) magnitude then none else some (signed true magnitude)

-- `limbs_fit_fixnum` on trimmed limbs.
unfoldable pub fit_trimmed : Bool → List ℕ → Option ℤ
unfolding fit_magnitude
fit_trimmed negative [] = some (pos 0)
fit_trimmed negative (x ∷ []) = fit_magnitude negative x
fit_trimmed negative (x ∷ y ∷ []) = fit_magnitude negative (bit_or (y * 0x100000000) x)
fit_trimmed negative (x ∷ y ∷ z ∷ limbs) = none

-- `limbs_fit_fixnum`
unfoldable pub limbs_fit_fixnum : Bool → List ℕ → Option ℤ
unfolding trim fit_trimmed
limbs_fit_fixnum negative limbs = fit_trimmed negative (trim limbs)

-- The end of `make_integer_from_limbs`: the fixnum when the limbs fit, else a new object.
abbrev pub fixnum_or_big : Option ℤ → Bool → List ℕ → Integer
fixnum_or_big (some small) negative limbs = fixnum small
fixnum_or_big none negative limbs = big negative limbs

-- `make_integer_from_limbs`
unfoldable pub make_integer_from_limbs : Bool → List ℕ → Integer
unfolding trim limbs_fit_fixnum
make_integer_from_limbs negative limbs =
    let limbs = trim limbs in
    if is_empty limbs
    then fixnum (pos 0)
    else fixnum_or_big (limbs_fit_fixnum negative limbs) negative limbs
