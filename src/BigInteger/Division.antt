-- ===== src/BigInteger/Division.antt =====
-- `LT_Integer_divmod` (src/classes/BigInteger.c) against division with truncation towards 0.
use list_talk.Common.{
  ℕ, zero, suc, ◌+◌, ◌*◌, ◌%◌, ◌/◌, ◌<◌, Bool, false, List, [], ◌∷◌, Option, none, some, ==_iff,
  ◌==◌, length, ◌≡◌, refl, sym, ◌∙◌, arith, Bool-cases, inl, inr,
}
use native.Mathlib.Nat.{
  div-eq_of_lt-le, mul-add-mod_self_right, mod-eq_of_lt, div-eq_of_lt, add-mul,
}
use list_talk.Common.Int.{ℤ, is_negative, magnitude, signed, xor, magnitude-signed, sign_of}
use list_talk.BigInteger.{Integer, integer_ref}
use list_talk.BigInteger.Limbs.{is_empty, low_limb}
use list_talk.BigInteger.Magnitude.{value, IsLimbs, IsTrimmed, trim-kept}
use list_talk.BigInteger.Canonical.{
  to_int, IsInteger, Stands, make_integer-Stands, integer_ref-ref_int, integer_ref-IsRef,
}
use list_talk.BigInteger.Divide.{divide_abs_values, divmod_results, integer_divmod}
use list_talk.BigInteger.Signs.{integer_ref-is_empty}
use list_talk.BigInteger.Scan.{Divides, divide_single-Divides}
use list_talk.BigInteger.LongDivision.{divide_long-Divides}

-- The result of a division that was not refused.
abbrev Divided : Option (List ℕ × List ℕ) → ℕ → ℕ → Type 0
Divided none m n = ⊥
Divided (some result) m n = Divides result m n

value_single :
    (limbs : List ℕ)
    → IsLimbs limbs
    → length limbs ≡ 1
    → (value limbs ≡ low_limb limbs) × (low_limb limbs < 0x100000000)
value_single [] h e = absurd (omega arith)
value_single (x ∷ []) (hx, h) e = (omega arith, hx)
value_single (x ∷ y ∷ limbs) h e = absurd (omega arith)

value_positive : (limbs : List ℕ) → IsTrimmed limbs → is_empty limbs ≡ false → 0 < value limbs
value_positive [] h e = absurd (ground arith)
value_positive (x ∷ limbs) (hx, h) e = hx

divide_abs-Divided :
    (dividend divisor : List ℕ)
    → IsLimbs dividend
    → IsLimbs divisor
    → IsTrimmed dividend
    → IsTrimmed divisor
    → is_empty divisor ≡ false
    → Divided (divide_abs_values dividend divisor) (value dividend) (value divisor)
unfolding divide_abs_values
divide_abs-Divided dividend divisor hl hr kl kr h =
    let positive = value_positive divisor kr h in
    rw (trim-kept dividend kl, trim-kept divisor kr, h)
      (elim (Bool-cases (length divisor == 1)) [
        | inl e ↦
            let single = value_single divisor hr ((==_iff (length divisor) 1).0 e) in
            rw (e, single.0)
              (divide_single-Divides dividend (low_limb divisor) (omega (arith, single.0, positive))
                single.1 hl)
        | inr e ↦ rw e (divide_long-Divides dividend divisor hl hr kl kr positive)
      ])

-- The quotient and the remainder are those of the division of natural numbers.
module _ (q r m n : ℕ) (h : q * n + r ≡ m) (hr : r < n) where
  quotient_of : q ≡ m / n
  quotient_of = sym (div-eq_of_lt-le {k = q} n (omega arith) (omega (arith, add-mul q 1 n)))

  remainder_of : r ≡ m % n
  remainder_of = let low = mul-add-mod_self_right q n r ∙ mod-eq_of_lt hr in rw h at (sym low)

-- An error exactly for the divisor 0; else the quotient and the remainder of the division that
-- truncates towards 0, where the remainder has the sign of the dividend.
abbrev pub DivModResult : Option (Integer × Integer) → ℤ → ℤ → Type 0
DivModResult none a b = magnitude b ≡ 0
DivModResult (some (quotient, remainder)) a b =
    (0 < magnitude b)
    × (Stands quotient (signed (xor (is_negative a) (is_negative b)) (magnitude a / magnitude b))
        × Stands remainder (signed (is_negative a) (magnitude a % magnitude b)))

zero_sign : (s t : Bool) → signed s 0 ≡ signed t 0
zero_sign s t = ground arith

-- The sign of a quotient or a remainder, which counts only where it is not 0.
signed_quotient :
    (s t : Bool) (m n : ℕ)
    → 0 < n
    → signed (xor s t) (m / n) ≡ signed (xor (is_negative (signed s m)) t) (m / n)
signed_quotient s t zero n h =
    rw (div-eq_of_lt h) (zero_sign (xor s t) (xor (is_negative (signed s 0)) t))
signed_quotient s t (suc m) n h = rw (sign_of s (suc m) (omega arith)) refl

signed_remainder :
    (s : Bool) (m n : ℕ) → 0 < n → signed s (m % n) ≡ signed (is_negative (signed s m)) (m % n)
signed_remainder s zero n h = rw (mod-eq_of_lt h) (zero_sign s (is_negative (signed s 0)))
signed_remainder s (suc m) n h = rw (sign_of s (suc m) (omega arith)) refl

divmod_results-DivModResult :
    (s t : Bool) (m n : ℕ) (result : Option (List ℕ × List ℕ))
    → 0 < n
    → Divided result m n
    → DivModResult (divmod_results s t result) (signed s m) (signed t n)
divmod_results-DivModResult s t m n none hn h = absurd h
divmod_results-DivModResult s t m n (some (quotient, remainder)) hn (hb, (hr, (kq, kr))) =
    let q = quotient_of (value quotient) (value remainder) m n hb hr in
    let r = remainder_of (value quotient) (value remainder) m n hb hr in
    rw
      (
        magnitude-signed s m,
        magnitude-signed t n,
        sign_of t n hn,
        ← signed_quotient s t m n hn,
        ← signed_remainder s m n hn,
      )
      (hn, (make_integer-Stands (xor s t) quotient kq q, make_integer-Stands s remainder kr r))

-- For integers in canonical form, `LT_Integer_divmod` fails exactly when the divisor is 0. Else its
-- results stand for the quotient that is cut off towards 0 and the remainder with the sign of the
-- dividend, and are in canonical form, by the scan and by the long division alike.
pub integer_divmod-DivModResult :
    (a b : Integer)
    → IsInteger a
    → IsInteger b
    → DivModResult (integer_divmod a b) (to_int a) (to_int b)
unfolding integer_divmod
integer_divmod-DivModResult a b ha hb =
    let lhs = integer_ref a in
    let rhs = integer_ref b in
    let l = integer_ref-IsRef a ha in
    let r = integer_ref-IsRef b hb in
    let zero_b = integer_ref-is_empty b hb in
    elim (Bool-cases (is_empty rhs.limbs)) [
      | inl e ↦ rw e ((==_iff (magnitude (to_int b)) 0).0 (sym zero_b ∙ e))
      | inr e ↦
          rw (e, ← integer_ref-ref_int a ha, ← integer_ref-ref_int b hb)
            (divmod_results-DivModResult lhs.negative rhs.negative (value lhs.limbs)
              (value rhs.limbs) (divide_abs_values lhs.limbs rhs.limbs)
              (value_positive rhs.limbs r.1 e)
              (divide_abs-Divided lhs.limbs rhs.limbs l.0 r.0 l.1 r.1 e))
    ]
