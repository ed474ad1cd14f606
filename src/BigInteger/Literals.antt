-- ===== src/BigInteger/Literals.antt =====
-- Reading a literal (src/classes/BigInteger.c) against the number that the digits denote.
use list_talk.Common.{
  ℕ, suc, ◌+◌, ◌*◌, ◌^◌, ◌<◌, Bool, true, false, ◌||◌, List, [], ◌∷◌, ◌++◌, map, Option, none, some,
  ◌==◌, ltb, leb, if◌then◌else◌, length, All, ◌≡◌, refl, ◌∙◌, arith,
}
use native.Mathlib.Nat.{pow-zero, pow-suc}
use list_talk.Common.Int.{ℤ, pos, signed, signed-add, neg-signed}
use list_talk.BigInteger.{Integer, fixnum, in_range}
use list_talk.BigInteger.Canonical.{Stands}
use list_talk.BigInteger.Operations.{integer_add}
use list_talk.BigInteger.Digits.{
  multiply_by_small, multiply_by_small-Stands, digit_value, digits_loop, with_sign, from_unsigned,
  from_signed, new_from_digits,
}
use list_talk.BigInteger.Sums.{integer_add-Stands}
use list_talk.BigInteger.Signs.{integer_negate-Stands}

-- The character of a digit, its letter in upper case or in lower case.
abbrev pub digit_char : Bool × ℕ → ℕ
digit_char (upper, digit) =
    if ltb digit 10 then digit + 48 else if upper then digit + 55 else digit + 87

-- The number that digits denote, the highest first.
abbrev pub number : ℕ → List (Bool × ℕ) → ℕ
number radix [] = 0
number radix ((upper, d) ∷ digits) = d * radix ^ length digits + number radix digits

abbrev pub Reads : Option Integer → ℤ → Type 0
Reads none n = ⊥
Reads (some v) n = Stands v n

digit_value-digit_char :
    (upper : Bool) (d : ℕ) → d < 36 → digit_value (digit_char (upper, d)) ≡ some d
unfolding digit_value
digit_value-digit_char true d h = ground arith
digit_value-digit_char false d h = ground arith

next_digit :
    (v : Integer) (a d radix : ℕ)
    → radix < 37
    → d < radix
    → Stands v (pos a)
    → Stands (integer_add (multiply_by_small v radix) (fixnum (pos d))) (pos (a * radix + d))
unfolding in_range
next_digit v a d radix hr hd h =
    let scaled = multiply_by_small-Stands v a radix (omega arith) h in
    let sum =
      integer_add-Stands (multiply_by_small v radix) (fixnum (pos d)) scaled.1 (ground arith) in
    let total = signed-add false (a * radix) d in (sum.0 ∙ rw scaled.0 total, sum.1)

digits_loop-Reads :
    (radix : ℕ) (v : Integer) (a : ℕ) (digits : List (Bool × ℕ))
    → radix < 37
    → Stands v (pos a)
    → All (λ (p : Bool × ℕ). p.1 < radix) digits
    → Reads
        (digits_loop radix v (map digit_char digits))
        (pos (a * radix ^ length digits + number radix digits))
unfolding digits_loop
digits_loop-Reads radix v a [] hr h hd =
    let same : a * radix ^ 0 + 0 ≡ a = rw (pow-zero radix) (omega arith) in rw same h
digits_loop-Reads radix v a ((upper, d) ∷ digits) hr h (hx, hd) =
    let weight : a * radix ^ suc (length digits) + (d * radix ^ length digits + number radix digits)
        ≡ (a * radix + d) * radix ^ length digits + number radix digits =
      rw (pow-suc radix (length digits)) (grind arith) in
    let within : leb radix d ≡ false = ground arith in
    rw (weight, digit_value-digit_char upper d (omega arith), within, digits_loop)
      (digits_loop-Reads radix (integer_add (multiply_by_small v radix) (fixnum (pos d)))
        (a * radix + d) digits hr (next_digit v a d radix hr hx h) hd)

abbrev pub sign_chars : Bool → List ℕ
sign_chars false = []
sign_chars true = 45 ∷ []

with_sign-Reads :
    (s : Bool) (result : Option Integer) (n : ℕ)
    → Reads result (pos n)
    → Reads (with_sign s result) (signed s n)
with_sign-Reads s none n h = absurd h
with_sign-Reads false (some v) n h = h
with_sign-Reads true (some v) n (hv, h) =
    let negated = integer_negate-Stands v h in (negated.0 ∙ rw hv (neg-signed false n), negated.1)

digit_not_sign :
    (upper : Bool) (d : ℕ)
    → ((digit_char (upper, d) == 43) || (digit_char (upper, d) == 45)) ≡ false
digit_not_sign true d = ground arith
digit_not_sign false d = ground arith

module _ (s upper : Bool) (d radix : ℕ) (digits : List (Bool × ℕ)) (hr : 1 < radix)
    (hs : radix < 37) (hd : All (λ (p : Bool × ℕ). p.1 < radix) ((upper, d) ∷ digits)) where
  from_unsigned-Reads :
      Reads
        (from_unsigned radix s (map digit_char ((upper, d) ∷ digits)))
        (signed s (number radix ((upper, d) ∷ digits)))
  unfolding from_unsigned in_range
  from_unsigned-Reads =
      let nothing : 0 * radix ^ length ((upper, d) ∷ digits) ≡ 0 = omega arith in
      let total : number radix ((upper, d) ∷ digits)
          ≡ 0 * radix ^ length ((upper, d) ∷ digits) + number radix ((upper, d) ∷ digits) =
        omega arith in
      rw total (
        with_sign-Reads s
          (digits_loop radix (fixnum (pos 0)) (map digit_char ((upper, d) ∷ digits)))
          (0 * radix ^ length ((upper, d) ∷ digits) + number radix ((upper, d) ∷ digits))
          (digits_loop-Reads radix (fixnum (pos 0)) 0 ((upper, d) ∷ digits) hs (refl, refl) hd))

module _ (upper : Bool) (d radix : ℕ) (digits : List (Bool × ℕ)) (hr : 1 < radix) (hs : radix < 37)
    (hd : All (λ (p : Bool × ℕ). p.1 < radix) ((upper, d) ∷ digits)) where
  -- In a radix from 2 to 36, `LT_BigInteger_new_from_digits` reads the characters of digits below the
  -- radix, at least one, letters in either case, with or without a minus sign in front, as the number
  -- that they denote.
  pub new_from_digits-Reads :
      (s : Bool)
      → Reads
          (new_from_digits (sign_chars s ++ map digit_char ((upper, d) ∷ digits)) radix)
          (signed s (number radix ((upper, d) ∷ digits)))
  unfolding new_from_digits from_signed
  new_from_digits-Reads s =
      let valid : (ltb radix 2 || ltb 36 radix) ≡ false = ground arith in rw valid (signed_text s)
    where
      signed_text :
          (s : Bool)
          → Reads
              (from_signed radix (sign_chars s ++ map digit_char ((upper, d) ∷ digits)))
              (signed s (number radix ((upper, d) ∷ digits)))
      signed_text false =
          rw (digit_not_sign upper d) (from_unsigned-Reads false upper d radix digits hr hs hd)
      signed_text true = from_unsigned-Reads true upper d radix digits hr hs hd
