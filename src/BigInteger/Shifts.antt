-- ===== src/BigInteger/Shifts.antt =====
-- The shifts of src/classes/BigInteger.c: `shift_left_abs` against multiplication by a power of
-- two, and `shift_right_one_inplace` against halving.
use list_talk.Common.{
  ℕ, zero, suc, ◌+◌, ◌-◌, ◌*◌, ◌%◌, ◌/◌, ◌^◌, ◌<◌, ◌≤◌, List, [], ◌∷◌, ◌++◌, ◌==◌, replicate, ◌≡◌,
  ap, sym, ◌∙◌, arith, Bool-cases, inl, inr,
}
use native.Mathlib.Nat.{
  div-add-mod, mod-lt, mul-le-mul, le_refl, div-lt_iff_lt-mul, div-le_self, pow-suc, one-le-pow,
}
use list_talk.Common.Bits.{bit_or_fields, bit_and_1}
use list_talk.BigInteger.Limbs.{u32, u64, high, trim}
use list_talk.BigInteger.Magnitude.{value, IsLimbs, value-trim, trim-IsLimbs}
use list_talk.BigInteger.Divide.{shift_left_loop, shift_left_abs, shift_right_loop, shift_right_one}

pub pow_add : (m n : ℕ) → 2 ^ (m + n) ≡ 2 ^ m * 2 ^ n
pow_add zero n = let same : 0 + n ≡ n = omega arith in rw same (omega arith)
pow_add (suc m) n =
    let next : suc m + n ≡ suc (m + n) = omega arith in
    rw (next, pow-suc 2 (m + n), pow-suc 2 m, pow_add m n) (grind arith)

-- A limb that is shifted falls into two parts at the power of two that it is short of a limb.
module _ (p r x carry : ℕ) (hp : 0 < p) (hr : 0 < r) (e : p * r ≡ 0x100000000)
    (hx : x < 0x100000000) (hc : carry < p) where
  split_low : x % r * p + p ≤ 0x100000000
  split_low =
      let room : suc (x % r) * p ≤ r * p = mul-le-mul (mod-lt x hr) (le_refl p) in
      let same : r * p ≡ p * r = grind arith in
      let step : suc (x % r) * p ≡ x % r * p + p = grind arith in omega arith

  split_shifted : x * p ≡ x % r * p + 0x100000000 * (x / r)
  split_shifted =
      let parts = div-add-mod x r in
      let expand : (r * (x / r) + x % r) * p ≡ x % r * p + p * r * (x / r) = grind arith in
      rw (e, parts) at expand

  split_high : x / r < p
  split_high =
      let quotient = div-lt_iff_lt-mul {k = r} {x = x} {y = p} hr in quotient.1 (omega arith)

  split_u64 : u64 (x * p) ≡ x * p
  split_u64 = let small = div-le_self x r in omega (arith, split_low, split_shifted)

  split_u32 : u32 (x * p) ≡ x % r * p
  split_u32 = omega (arith, split_low, split_shifted, hp)

  split_carry : u32 (high (x * p)) ≡ x / r
  split_carry = let small = div-le_self x r in omega (arith, split_low, split_shifted, hp)

module _ (k r : ℕ) (hr : 0 < r) (e : 2 ^ k * r ≡ 0x100000000) where
  pub value-shift_left_loop :
      (carry : ℕ) (limbs : List ℕ)
      → carry < 2 ^ k
      → IsLimbs limbs
      → (value (shift_left_loop k carry limbs) ≡ value limbs * 2 ^ k + carry)
        × IsLimbs (shift_left_loop k carry limbs)
  unfolding shift_left_loop
  value-shift_left_loop carry [] hc h =
      let wide : 2 ^ k * 1 ≤ 2 ^ k * r = mul-le-mul (le_refl (2 ^ k)) hr in
      (omega arith, (omega arith, tt))
  value-shift_left_loop carry (x ∷ limbs) hc (hx, h) =
      let p = 2 ^ k in
      let hp = one-le-pow k 2 (omega arith) in
      let rest = value-shift_left_loop (x / r) limbs (split_high p r x carry hp hr e hx hc) h in
      let expand : (x + 0x100000000 * value limbs) * p ≡ x * p + 0x100000000 * (value limbs * p) =
        grind arith in
      let low = split_low p r x carry hp hr e hx hc in
      let shifted = split_shifted p r x carry hp hr e hx hc in
      rw
        (
          split_u64 p r x carry hp hr e hx hc,
          split_u32 p r x carry hp hr e hx hc,
          split_carry p r x carry hp hr e hx hc,
          bit_or_fields k (x % r) carry hc,
        )
        (omega (arith, rest.0), (omega arith, rest.1))

regroup : (v p : ℕ) → v * (p * 0x100000000) ≡ 0x100000000 * (v * p)
regroup v p = grind arith

value-zeros_append :
    (w : ℕ) (limbs : List ℕ)
    → IsLimbs limbs
    → (value (replicate w 0 ++ limbs) ≡ value limbs * 2 ^ (w * 32))
      × IsLimbs (replicate w 0 ++ limbs)
value-zeros_append zero limbs h = (omega arith, h)
value-zeros_append (suc w) limbs h =
    let rest = value-zeros_append w limbs h in
    let next : suc w * 32 ≡ w * 32 + 32 = omega arith in
    let wider = pow_add (w * 32) 32 in
    (
      rw (next, wider) (omega (arith, rest.0, regroup (value limbs) (2 ^ (w * 32)))),
      (omega arith, rest.1),
    )

trim_words :
    (w b n v : ℕ) (limbs : List ℕ)
    → n ≡ w * 32 + b
    → (value limbs ≡ v * 2 ^ b) × IsLimbs limbs
    → (value (trim (replicate w 0 ++ limbs)) ≡ v * 2 ^ n) × IsLimbs (trim (replicate w 0 ++ limbs))
trim_words w b n v limbs e (hv, h) =
    let words = value-zeros_append w limbs h in
    let swap : v * (2 ^ (w * 32) * 2 ^ b) ≡ v * 2 ^ b * 2 ^ (w * 32) = grind arith in
    (
      rw (value-trim (replicate w 0 ++ limbs), words.0, hv, e, pow_add (w * 32) b) (sym swap),
      trim-IsLimbs (replicate w 0 ++ limbs) words.1,
    )

limb_short : (k : ℕ) → k < 32 → 2 ^ k * 2 ^ (32 - k) ≡ 0x100000000
limb_short k h =
    let all : k + (32 - k) ≡ 32 = omega arith in
    sym (pow_add k (32 - k)) ∙ ap (λ (j : ℕ). 2 ^ j) all

-- Shifting left by n bits multiplies by 2^n.
pub value-shift_left_abs :
    (limbs : List ℕ) (n : ℕ)
    → IsLimbs limbs
    → (value (shift_left_abs limbs n) ≡ value limbs * 2 ^ n) × IsLimbs (shift_left_abs limbs n)
unfolding shift_left_abs
value-shift_left_abs [] n h = (omega arith, tt)
value-shift_left_abs (x ∷ limbs) n h = elim (Bool-cases (n % 32 == 0)) [
  | inl e ↦
      rw e (trim_words (n / 32) 0 n (value (x ∷ limbs)) (x ∷ limbs) (ground arith) (omega arith, h))
  | inr e ↦
      let bits = n % 32 in
      let short = limb_short bits (omega arith) in
      let shifted =
        value-shift_left_loop bits (2 ^ (32 - bits)) (one-le-pow (32 - bits) 2 (omega arith)) short
          0 (x ∷ limbs) (one-le-pow bits 2 (omega arith)) h in
      rw e (
        trim_words (n / 32) bits n (value (x ∷ limbs)) (shift_left_loop bits 0 (x ∷ limbs))
          (omega arith) (omega (arith, shifted.0), shifted.1))
]

-- Shifting right by one bit halves, and the carry is the bit that is lost.
value-shift_right_loop :
    (limbs : List ℕ)
    → IsLimbs limbs
    → (2 * value (shift_right_loop limbs).0 + (shift_right_loop limbs).1 ≡ value limbs)
      × (((shift_right_loop limbs).1 < 2) × IsLimbs (shift_right_loop limbs).0)
unfolding shift_right_loop
value-shift_right_loop [] h = (omega arith, (omega arith, tt))
value-shift_right_loop (x ∷ limbs) (hx, h) =
    let above = value-shift_right_loop limbs h in
    let carry = (shift_right_loop limbs).1 in
    let same : u32 (carry * 2 ^ 31) ≡ carry * 2 ^ 31 = omega (arith, above.1.0) in
    rw (same, bit_or_fields 31 carry (x / 2) (omega arith), bit_and_1 x)
      (omega (arith, above.0), (omega arith, (omega (arith, above.1.0), above.1.1)))

pub value-shift_right_one :
    (limbs : List ℕ)
    → IsLimbs limbs
    → (value (shift_right_one limbs) ≡ value limbs / 2) × IsLimbs (shift_right_one limbs)
unfolding shift_right_one
value-shift_right_one limbs h =
    let halves = value-shift_right_loop limbs h in
    (
      omega (arith, value-trim (shift_right_loop limbs).0, halves.0, halves.1.0),
      trim-IsLimbs (shift_right_loop limbs).0 halves.1.1,
    )
