-- ===== src/BigInteger/Digits.antt =====
-- `LT_BigInteger_new_from_digits` (src/classes/BigInteger.c): integers from their digits.
-- The text is the list of its characters before the terminator.
use list_talk.Common.{
  ℕ, zero, suc, ◌+◌, ◌-◌, ◌*◌, ◌<◌, Bool, true, false, ◌&&◌, ◌||◌, List, [], ◌∷◌, Option, none,
  some, ◌==◌, ltb, leb, if◌then◌else◌, ◌≡◌, refl, ap, ◌∙◌, arith, Bool-cases, inl, inr,
}
use list_talk.Common.Int.{pos, signed}
use list_talk.BigInteger.{Integer, fixnum, in_range, integer_ref, make_integer_from_limbs}
use list_talk.BigInteger.Limbs.{u32, u64, high, is_empty}
use list_talk.BigInteger.Magnitude.{value, IsLimbs}
use list_talk.BigInteger.Products.{product_bound}
use list_talk.BigInteger.Canonical.{
  Stands, make_integer-Stands, signed_zero, integer_ref-ref_int, integer_ref-IsRef,
}
use list_talk.BigInteger.Operations.{integer_add, integer_negate}

-- The loop of `integer_multiply_by_small`.
unfoldable pub multiply_small_loop : ℕ → ℕ → List ℕ → List ℕ
multiply_small_loop factor carry [] = u32 carry ∷ []
multiply_small_loop factor carry (x ∷ limbs) =
    let product = u64 (x * factor + carry) in
    u32 product ∷ multiply_small_loop factor (high product) limbs

-- `integer_multiply_by_small`
unfoldable pub multiply_by_small : Integer → ℕ → Integer
multiply_by_small v factor =
    let ref = integer_ref v in
    if is_empty ref.limbs || (factor == 0)
    then fixnum (pos 0)
    else make_integer_from_limbs ref.negative (multiply_small_loop factor 0 ref.limbs)

-- `digit_value`, with none for -1.
unfoldable pub digit_value : ℕ → Option ℕ
digit_value ch =
    if leb 48 ch && leb ch 57
    then some (ch - 48)
    else if leb 97 ch && leb ch 122
    then some (ch - 97 + 10)
    else if leb 65 ch && leb ch 90
    then some (ch - 65 + 10)
    else none

-- The test on a digit in the loop of `LT_BigInteger_new_from_digits`.
abbrev pub digit_below : ℕ → Option ℕ → Option ℕ
digit_below radix none = none
digit_below radix (some digit) = if leb radix digit then none else some digit

-- The loop of `LT_BigInteger_new_from_digits`, with none for `LT_error`.
unfoldable pub digits_loop : ℕ → Integer → List ℕ → Option Integer
digits_loop radix result [] = some result
digits_loop radix result (ch ∷ text) = elim (digit_below radix (digit_value ch)) [
  | none ↦ none
  | some digit ↦
      digits_loop radix (integer_add (multiply_by_small result radix) (fixnum (pos digit))) text
]

-- The end of `LT_BigInteger_new_from_digits`.
abbrev pub with_sign : Bool → Option Integer → Option Integer
with_sign negative none = none
with_sign negative (some result) = some (if negative then integer_negate result else result)

-- `LT_BigInteger_new_from_digits` after the sign.
unfoldable pub from_unsigned : ℕ → Bool → List ℕ → Option Integer
from_unsigned radix negative [] = none
from_unsigned radix negative (ch ∷ text) =
    with_sign negative (digits_loop radix (fixnum (pos 0)) (ch ∷ text))

-- The test on the first character of `LT_BigInteger_new_from_digits`.
unfoldable pub from_signed : ℕ → List ℕ → Option Integer
from_signed radix [] = from_unsigned radix false []
from_signed radix (ch ∷ text) =
    if (ch == 43) || (ch == 45)
    then from_unsigned radix (ch == 45) text
    else from_unsigned radix false (ch ∷ text)

-- `LT_BigInteger_new_from_digits`
unfoldable pub new_from_digits : List ℕ → ℕ → Option Integer
new_from_digits digits radix =
    if ltb radix 2 || ltb 36 radix then none else from_signed radix digits

module _ (factor : ℕ) (hf : factor < 0x100000000) where
  value-multiply_small_loop :
      (carry : ℕ) (limbs : List ℕ)
      → carry < 0x100000000
      → IsLimbs limbs
      → (value (multiply_small_loop factor carry limbs) ≡ value limbs * factor + carry)
        × IsLimbs (multiply_small_loop factor carry limbs)
  unfolding multiply_small_loop
  value-multiply_small_loop carry [] hc h = (omega arith, (omega arith, tt))
  value-multiply_small_loop carry (x ∷ limbs) hc (hx, h) =
      let bound = product_bound x factor hx hf in
      let product = u64 (x * factor + carry) in
      let rest = value-multiply_small_loop (high product) limbs (omega arith) h in
      let expand : (x + 0x100000000 * value limbs) * factor
          ≡ x * factor + 0x100000000 * (value limbs * factor) =
        grind arith in
      (omega (arith, rest.0), (omega arith, rest.1))

empty_product :
    (limbs : List ℕ) (factor : ℕ)
    → (is_empty limbs || (factor == 0)) ≡ true
    → value limbs * factor ≡ 0
empty_product [] factor h = omega arith
empty_product (x ∷ limbs) zero h = omega arith
empty_product (x ∷ limbs) (suc factor) h = absurd (ground arith)

scaled : (s : Bool) (m a factor : ℕ) → signed s m ≡ pos a → signed s (m * factor) ≡ pos (a * factor)
scaled false m a factor h = let same : m ≡ a = ground arith in ap (λ (n : ℕ). pos (n * factor)) same
scaled true zero a factor h =
    let same : a ≡ 0 = ground arith in
    let left : 0 * factor ≡ 0 = omega arith in rw (same, left) refl
scaled true (suc m) a factor h = absurd (ground arith)

multiply_small-Stands :
    (s : Bool) (limbs : List ℕ) (factor : ℕ)
    → factor < 0x100000000
    → IsLimbs limbs
    → Stands
        (if is_empty limbs || (factor == 0)
          then fixnum (pos 0)
          else make_integer_from_limbs s (multiply_small_loop factor 0 limbs))
        (signed s (value limbs * factor))
unfolding in_range
multiply_small-Stands s limbs factor hf h =
    let product = value-multiply_small_loop factor hf 0 limbs (omega arith) h in
    elim (Bool-cases (is_empty limbs || (factor == 0))) [
      | inl e ↦ rw (e, empty_product limbs factor e) (signed_zero s, refl)
      | inr e ↦ rw e (
          make_integer-Stands s (multiply_small_loop factor 0 limbs) product.1
            (omega (arith, product.0)))
    ]

pub multiply_by_small-Stands :
    (v : Integer) (a factor : ℕ)
    → factor < 0x100000000
    → Stands v (pos a)
    → Stands (multiply_by_small v factor) (pos (a * factor))
unfolding multiply_by_small
multiply_by_small-Stands v a factor hf (hv, h) =
    let ref = integer_ref v in
    let number = scaled ref.negative (value ref.limbs) a factor (integer_ref-ref_int v h ∙ hv) in
    rw (← number) (multiply_small-Stands ref.negative ref.limbs factor hf (integer_ref-IsRef v h).0)
