-- ===== src/BigInteger/BitLength.antt =====
-- `bit_length_abs` (src/classes/BigInteger.c): the number of bits up to the highest one that is set.
use list_talk.Common.{
  ℕ, zero, suc, ◌+◌, ◌-◌, ◌*◌, ◌/◌, ◌^◌, ◌<◌, ◌≤◌, List, [], ◌∷◌, ◌==◌, get_or, length, ◌≡◌, refl,
  arith, Bool-cases, inl, inr,
}
use native.Mathlib.Nat.{mul-le-mul, le_refl, pow-suc}
use list_talk.BigInteger.Magnitude.{value, IsLimbs, IsTrimmed, trim-kept}
use list_talk.BigInteger.Divide.{count_bits, bit_length_abs}
use list_talk.BigInteger.Shifts.{pow_add}

low_bits :
    (top c : ℕ)
    → 0 < top
    → (0 < top / 2 → 2 ^ c ≤ 2 * (top / 2))
    → (top / 2 ≡ 0 → c ≡ 0)
    → 2 ^ suc c ≤ 2 * top
low_bits top c h many one = elim (Bool-cases (top / 2 == 0)) [
  | inl e ↦ let none : c ≡ 0 = one (ground arith) in rw none (omega arith)
  | inr e ↦ let half = many (ground arith) in omega (arith, pow-suc 2 c)
]

-- Fuel for the width of the number is enough for the loop over its bits.
count_bits_bounds :
    (fuel top : ℕ)
    → top < 2 ^ fuel
    → (top < 2 ^ count_bits fuel top)
      × ((0 < top → 2 ^ count_bits fuel top ≤ 2 * top) × (top ≡ 0 → count_bits fuel top ≡ 0))
unfolding count_bits
count_bits_bounds zero top h = (h, ((λ k. absurd (omega arith)), (λ k. refl)))
count_bits_bounds (suc fuel) top h =
    let half = count_bits_bounds fuel (top / 2) (omega (arith, pow-suc 2 fuel)) in
    elim (Bool-cases (top == 0)) [
      | inl e ↦ rw e (ground arith, ((λ k. absurd (ground arith)), (λ k. refl)))
      | inr e ↦ rw e (
        omega (arith, half.0, pow-suc 2 (count_bits fuel (top / 2))),
        (
          (λ k. low_bits top (count_bits fuel (top / 2)) k half.1.0 half.1.1),
          (λ k. absurd (ground arith)),
        ),
      )
    ]

-- The number lies between two multiples of the weight of its highest limb.
top_bounds :
    (x : ℕ) (limbs : List ℕ)
    → IsLimbs (x ∷ limbs)
    → (2 ^ (length limbs * 32) * get_or (x ∷ limbs) (length limbs) 0 ≤ value (x ∷ limbs))
      × (value (x ∷ limbs) < 2 ^ (length limbs * 32) * suc (get_or (x ∷ limbs) (length limbs) 0))
top_bounds x [] h = (omega arith, omega arith)
top_bounds x (y ∷ limbs) (hx, h) =
    let rest = top_bounds y limbs h in
    let next : suc (length limbs) * 32 ≡ 32 + length limbs * 32 = omega arith in
    let top = get_or (y ∷ limbs) (length limbs) 0 in
    let p = 2 ^ (length limbs * 32) in
    let assoc : (t : ℕ) → 0x100000000 * p * t ≡ 0x100000000 * (p * t) = λ t. grind arith in
    rw (next, pow_add 32 (length limbs * 32))
      (omega (arith, assoc top, rest.0), omega (arith, assoc (suc top), rest.1))

top_limb :
    (x : ℕ) (limbs : List ℕ)
    → IsLimbs (x ∷ limbs)
    → IsTrimmed (x ∷ limbs)
    → (0 < get_or (x ∷ limbs) (length limbs) 0)
      × (get_or (x ∷ limbs) (length limbs) 0 < 0x100000000)
top_limb x [] (hx, h) (tx, t) = (omega arith, hx)
top_limb x (y ∷ limbs) (hx, h) (tx, t) = top_limb y limbs h t

-- A number of bit length b is below 2^b and not below 2^(b-1).
pub bit_length_bounds :
    (limbs : List ℕ)
    → IsLimbs limbs
    → IsTrimmed limbs
    → 0 < value limbs
    → (value limbs < 2 ^ bit_length_abs limbs) × (2 ^ bit_length_abs limbs ≤ 2 * value limbs)
unfolding bit_length_abs
bit_length_bounds [] h t hv = absurd (omega arith)
bit_length_bounds (x ∷ limbs) h t hv =
    let top = get_or (x ∷ limbs) (length limbs) 0 in
    let bounds = top_bounds x limbs h in
    let highest = top_limb x limbs h t in
    let bits = count_bits_bounds 32 top highest.1 in
    let count : suc (length limbs) - 1 ≡ length limbs = omega arith in
    let p = 2 ^ (length limbs * 32) in
    let upper : p * suc top ≤ p * 2 ^ count_bits 32 top = mul-le-mul (le_refl p) bits.0 in
    let lower : p * 2 ^ count_bits 32 top ≤ p * (2 * top) =
      mul-le-mul (le_refl p) (bits.1.0 highest.0) in
    let double : p * (2 * top) ≡ 2 * (p * top) = grind arith in
    rw (trim-kept (x ∷ limbs) t, count, pow_add (length limbs * 32) (count_bits 32 top))
      (omega (arith, bounds.1), omega (arith, bounds.0))
