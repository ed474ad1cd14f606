-- ===== src/Common/Bits.antt =====
-- The bit operations at variables: the law of the lowest digit, masks of ones, fields side by side.
use Prim.Native.Nat.{
  ℕ, zero, suc, ◌+◌, ◌*◌, ◌/◌, ◌%◌, ◌^◌, ◌≤◌, ◌<◌, min, max, bit_and, bit_or, digits,
  bit_and-bitwise, bit_or-bitwise,
}
use mathlib.Core.Path.{◌≡◌, refl, ap}
use native.Mathlib.Omega.{arith}
use native.Mathlib.Nat.{pow-suc}

-- Fuel from the first number on gives all the digits.
module _ (z : ℕ → ℕ) (f : ℕ → ℕ → ℕ) where
  digits_enough : (a b m n : ℕ) → a ≤ m → a ≤ n → digits z f m a b ≡ digits z f n a b
  digits_enough zero b zero zero hm hn = refl
  digits_enough zero b zero (suc n) hm hn = refl
  digits_enough zero b (suc m) zero hm hn = refl
  digits_enough zero b (suc m) (suc n) hm hn = refl
  digits_enough (suc a) b zero n hm hn = absurd (omega arith)
  digits_enough (suc a) b (suc m) zero hm hn = absurd (omega arith)
  digits_enough (suc a) b (suc m) (suc n) hm hn =
      let half = digits_enough (suc a / 2) (b / 2) m n (omega arith) (omega arith) in
      ap (λ (t : ℕ). t * 2 + f (suc a % 2) (b % 2)) half

-- The law of the lowest digit.
module _ (a b : ℕ) where
  pub bit_and_digit : bit_and a b ≡ bit_and (a / 2) (b / 2) * 2 + min (a % 2) (b % 2)
  bit_and_digit = elim a as (λ a. bit_and a b ≡ bit_and (a / 2) (b / 2) * 2 + min (a % 2) (b % 2)) [
    | zero ↦ omega (arith, bit_and-bitwise 0 (b / 2), bit_and-bitwise 0 b)
    | suc n ↦
        let left = bit_and-bitwise (suc n) b in
        let right = bit_and-bitwise (suc n / 2) (b / 2) in
        let same =
          digits_enough (λ y. 0) min (suc n / 2) (b / 2) n (suc n / 2) (omega arith)
            (omega arith) in
        omega (arith, left, right, same)
  ]

  pub bit_or_digit : bit_or a b ≡ bit_or (a / 2) (b / 2) * 2 + max (a % 2) (b % 2)
  bit_or_digit = elim a as (λ a. bit_or a b ≡ bit_or (a / 2) (b / 2) * 2 + max (a % 2) (b % 2)) [
    | zero ↦ omega (arith, bit_or-bitwise 0 (b / 2), bit_or-bitwise 0 b)
    | suc n ↦
        let left = bit_or-bitwise (suc n) b in
        let right = bit_or-bitwise (suc n / 2) (b / 2) in
        let same =
          digits_enough (λ y. y) max (suc n / 2) (b / 2) n (suc n / 2) (omega arith)
            (omega arith) in
        omega (arith, left, right, same)
  ]

bit_and-le_fuel : (a m n : ℕ) → n ≤ a → bit_and n m ≤ m
bit_and-le_fuel a m zero h = omega (arith, bit_and-bitwise 0 m)
bit_and-le_fuel zero m (suc n) h = absurd (omega arith)
bit_and-le_fuel (suc a) m (suc n) h =
    let half = bit_and-le_fuel a (m / 2) (suc n / 2) (omega arith) in
    omega (arith, half, bit_and_digit (suc n) m)

-- An index that is masked stays within the mask.
pub bit_and-le : (a m : ℕ) → bit_and a m ≤ m
bit_and-le a m = bit_and-le_fuel a m a (omega arith)

pub bit_and_1 : (a : ℕ) → bit_and a 1 ≡ a % 2
bit_and_1 a = omega (arith, bit_and_digit a 1, bit_and-le (a / 2) 0)

pub bit_and_3 : (a : ℕ) → bit_and a 3 ≡ a % 4
bit_and_3 a = omega (arith, bit_and_digit a 3, bit_and_1 (a / 2))

pub bit_and_7 : (a : ℕ) → bit_and a 7 ≡ a % 8
bit_and_7 a = omega (arith, bit_and_digit a 7, bit_and_3 (a / 2))

pub bit_and_15 : (a : ℕ) → bit_and a 15 ≡ a % 16
bit_and_15 a = omega (arith, bit_and_digit a 15, bit_and_7 (a / 2))

pub bit_and_31 : (a : ℕ) → bit_and a 31 ≡ a % 32
bit_and_31 a = omega (arith, bit_and_digit a 31, bit_and_15 (a / 2))

pub bit_and_63 : (a : ℕ) → bit_and a 63 ≡ a % 64
bit_and_63 a = omega (arith, bit_and_digit a 63, bit_and_31 (a / 2))

pub bit_and_127 : (a : ℕ) → bit_and a 127 ≡ a % 128
bit_and_127 a = omega (arith, bit_and_digit a 127, bit_and_63 (a / 2))

pub bit_and_255 : (a : ℕ) → bit_and a 255 ≡ a % 256
bit_and_255 a = omega (arith, bit_and_digit a 255, bit_and_127 (a / 2))

bit_or-zero_fuel : (a n : ℕ) → n ≤ a → bit_or n 0 ≡ n
bit_or-zero_fuel a zero h = refl
bit_or-zero_fuel zero (suc n) h = absurd (omega arith)
bit_or-zero_fuel (suc a) (suc n) h =
    let half = bit_or-zero_fuel a (suc n / 2) (omega arith) in
    omega (arith, half, bit_or_digit (suc n) 0)

-- A field below bit `k` is joined to one from bit `k` on by addition.
pub bit_or_fields : (k q r : ℕ) → r < 2 ^ k → bit_or (q * 2 ^ k) r ≡ q * 2 ^ k + r
bit_or_fields zero q r h =
    let e : r ≡ 0 = omega arith in
    omega (arith, ap (bit_or (q * 2 ^ 0)) e, bit_or-zero_fuel (q * 2 ^ 0) (q * 2 ^ 0) (omega arith))
bit_or_fields (suc k) q r h = omega (
  arith,
  bit_or_digit (q * 2 ^ suc k) r,
  half,
  ap (λ (t : ℕ). bit_or t (r / 2)) half,
  double,
  bit_or_fields k q (r / 2) (omega (arith, pow-suc 2 k)),
)
  where
    double : q * 2 ^ suc k ≡ q * 2 ^ k * 2
    double = omega (arith, ap (λ (t : ℕ). q * t) (pow-suc 2 k))

    half : q * 2 ^ suc k / 2 ≡ q * 2 ^ k
    half = omega (arith, double)
