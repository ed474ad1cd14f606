-- ===== src/BigInteger/QuotientBits.antt =====
-- The quotient bits that the long division of `divide_abs_values` (src/classes/BigInteger.c) sets.
use list_talk.Common.{
  ℕ, zero, suc, ◌+◌, ◌-◌, ◌*◌, ◌%◌, ◌/◌, ◌^◌, ◌<◌, ◌≤◌, List, [], ◌∷◌, get_or, set, length, bit_or,
  ◌≡◌, ap, sym, ◌∙◌, arith,
}
use native.Mathlib.Nat.{
  mul-le-mul, le_refl, pow-suc, add-mul-mod_self_left, mul-mod_left, div-add-mod, div-lt_iff_lt-mul,
  one-le-pow, mul_comm,
}
use list_talk.Common.Bits.{bit_or_fields}
use list_talk.BigInteger.Magnitude.{value, IsLimbs}
use list_talk.BigInteger.Divide.{set_bit}
use list_talk.BigInteger.Shifts.{pow_add}

-- A limb that is a multiple of p, of which r fill the limb, takes a bit below p by addition.
module _ (b r x v k : ℕ) (e : 2 ^ suc b * r ≡ 0x100000000) (hx : x < 0x100000000)
    (h : x + 0x100000000 * v ≡ k * 2 ^ suc b) where
  limb_multiple : x / 2 ^ suc b * 2 ^ suc b ≡ x
  limb_multiple =
      let p = 2 ^ suc b in
      let split : 0x100000000 * v ≡ p * (r * v) = rw (← e) (grind arith) in
      let left = add-mul-mod_self_left x p (r * v) in
      let right = mul-mod_left k p in
      let same : x + p * (r * v) ≡ k * p = omega arith in
      let rest : 0 ≡ x % p = rw (same, right) at left in
      omega (arith, div-add-mod x p, mul_comm p (x / p))

  limb_bit : (bit_or x (2 ^ b) ≡ x + 2 ^ b) × (x + 2 ^ b < 0x100000000)
  limb_bit =
      let p = 2 ^ suc b in
      let half : 2 ^ b < p = omega (arith, pow-suc 2 b, one-le-pow b 2 (omega arith)) in
      let field = bit_or_fields (suc b) (x / p) (2 ^ b) half in
      let digit = div-lt_iff_lt-mul {k = p} {x = x} {y = r} (one-le-pow (suc b) 2 (omega arith)) in
      let below : x / p < r = digit.1 (omega (arith, mul_comm p r)) in
      let room : suc (x / p) * p ≤ r * p = mul-le-mul below (le_refl p) in
      let step : suc (x / p) * p ≡ x / p * p + p = grind arith in
      (rw limb_multiple at field, omega (arith, limb_multiple, mul_comm p r))

set_limb :
    (b r k i : ℕ) (limbs : List ℕ)
    → 2 ^ suc b * r ≡ 0x100000000
    → i < length limbs
    → IsLimbs limbs
    → value limbs ≡ k * 2 ^ suc b * 2 ^ (i * 32)
    → (value (set limbs i (bit_or (get_or limbs i 0) (2 ^ b))) ≡ value limbs + 2 ^ b * 2 ^ (i * 32))
      × IsLimbs (set limbs i (bit_or (get_or limbs i 0) (2 ^ b)))
set_limb b r k i [] e hi h hv = absurd (omega arith)
set_limb b r k zero (x ∷ limbs) e hi (hx, h) hv =
    let bit = limb_bit b r x (value limbs) k e hx (omega arith) in
    rw bit.0 (omega arith, (bit.1, h))
set_limb b r k (suc i) (x ∷ limbs) e hi (hx, h) hv =
    let next : suc i * 32 ≡ 32 + i * 32 = omega arith in
    let wider = pow_add 32 (i * 32) in
    let word : (m : ℕ) → m * 2 ^ (suc i * 32) ≡ 0x100000000 * (m * 2 ^ (i * 32)) =
      λ m. rw (next, wider) (grind arith) in
    let rest = set_limb b r k i limbs e (omega arith) h (omega (arith, word (k * 2 ^ suc b))) in
    (omega (arith, word (2 ^ b), rest.0), (hx, rest.1))

-- Setting a bit above which the number has no other adds its power of two.
pub value-set_bit :
    (s k : ℕ) (limbs : List ℕ)
    → s < length limbs * 32
    → IsLimbs limbs
    → value limbs ≡ k * 2 ^ suc s
    → (value (set_bit limbs s) ≡ value limbs + 2 ^ s) × IsLimbs (set_bit limbs s)
unfolding set_bit
value-set_bit s k limbs hs h hv =
    let i = s / 32 in
    let b = s % 32 in
    let whole : suc b + (31 - b) ≡ 32 = omega arith in
    let short : 2 ^ suc b * 2 ^ (31 - b) ≡ 0x100000000 =
      sym (pow_add (suc b) (31 - b)) ∙ ap (λ (j : ℕ). 2 ^ j) whole in
    let low : s ≡ b + i * 32 = omega arith in
    let power : 2 ^ s ≡ 2 ^ b * 2 ^ (i * 32) = ap (λ (j : ℕ). 2 ^ j) low ∙ pow_add b (i * 32) in
    let bits : k * 2 ^ suc s ≡ k * 2 ^ suc b * 2 ^ (i * 32) =
      rw (pow-suc 2 s, power, pow-suc 2 b) (grind arith) in
    rw power (set_limb b (2 ^ (31 - b)) k i limbs short (omega arith) h (hv ∙ bits))
