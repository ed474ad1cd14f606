-- ===== src/BigInteger/LongDivision.antt =====
-- The binary long division of `divide_abs_values` (src/classes/BigInteger.c).
use list_talk.Common.{
  ℕ, zero, suc, ◌+◌, ◌-◌, ◌*◌, ◌%◌, ◌/◌, ◌^◌, ◌<◌, ◌≤◌, true, false, ◌⊎◌, List, ltb, get_or, length,
  replicate, bit_or, ◌≡◌, refl, ap, sym, ◌∙◌, arith, Bool-cases, inl, inr, length-set,
  length-replicate,
}
use native.Mathlib.Nat.{mul-le-mul, le_refl, pow-suc, pow-le-pow_right}
use list_talk.Common.Int.{is_negative}
use list_talk.BigInteger.Limbs.{compare_abs_limbs}
use list_talk.BigInteger.Magnitude.{
  value, IsLimbs, IsTrimmed, value-subtract_abs_limbs, subtract_abs-IsLimbs, value-trim,
  trim-IsLimbs,
}
use list_talk.BigInteger.Order.{compare_abs_less, compare_abs_greater, compare_abs_equal}
use list_talk.BigInteger.Divide.{
  set_bit, long_step, long_loop, shift_right_one, divide_long, bit_length_abs, shift_left_abs,
}
use list_talk.BigInteger.Shifts.{pow_add, value-shift_right_one, value-shift_left_abs}
use list_talk.BigInteger.BitLength.{bit_length_bounds}
use list_talk.BigInteger.Products.{value-zeros}
use list_talk.BigInteger.QuotientBits.{value-set_bit}
use list_talk.BigInteger.Scan.{Divides}

-- Before the loop handles bit s - 1: the quotient has no bit below s, the remainder is below the
-- divisor times 2^s, and the two make up the dividend.
pub record LoopState (s d total : ℕ) (quotient remainder : List ℕ) : Type 0 where
  pub count : ℕ
  pub multiple : value quotient ≡ count * 2 ^ s
  pub balance : value quotient * d + value remainder ≡ total
  pub bound : value remainder < d * 2 ^ s
  pub quotient_limbs : IsLimbs quotient
  pub remainder_limbs : IsLimbs remainder

less_or :
    (left right : List ℕ)
    → IsLimbs left
    → IsLimbs right
    → ((is_negative (compare_abs_limbs left right) ≡ true) × (value left < value right))
      ⊎ ((is_negative (compare_abs_limbs left right) ≡ false) × (value right ≤ value left))
less_or left right hl hr = elim (Bool-cases (ltb (value left) (value right))) [
  | inl e ↦
      let less : value left < value right = ground arith in
      inl (rw (compare_abs_less left right hl hr less) (refl, less))
  | inr e ↦ elim (Bool-cases (ltb (value right) (value left))) [
    | inl f ↦
        let greater : value right < value left = ground arith in
        inr (rw (compare_abs_greater left right hl hr greater) (refl, omega arith))
    | inr f ↦
        let equal : value left ≡ value right = ground arith in
        inr (rw (compare_abs_equal left right hl hr equal) (refl, omega arith))
  ]
]

module _ (s d total : ℕ) (quotient remainder divisor : List ℕ)
    (state : LoopState (suc s) d total quotient remainder) (hd : IsLimbs divisor)
    (hv : value divisor ≡ d * 2 ^ s) (hs : s < length quotient * 32) where
  double : (m : ℕ) → m * 2 ^ suc s ≡ m * 2 ^ s + m * 2 ^ s
  double m = rw (pow-suc 2 s) (grind arith)

  long_step-LoopState :
      LoopState s d total
        (long_step s remainder divisor quotient).0
        (long_step s remainder divisor quotient).1
  unfolding long_step
  long_step-LoopState =
      let c = state.count in
      let doubled = double c in
      let wide = double d in
      let twice : (c + c) * 2 ^ s ≡ c * 2 ^ s + c * 2 ^ s = grind arith in
      let one_more : suc (c + c) * 2 ^ s ≡ (c + c) * 2 ^ s + 2 ^ s = grind arith in
      elim (less_or remainder divisor state.remainder_limbs hd) [
        | inl (e, less) ↦ rw e (record {
          count = state.count + state.count;
          multiple = omega (arith, state.multiple, twice, doubled);
          balance = state.balance;
          bound = omega (arith, less, hv);
          quotient_limbs = state.quotient_limbs;
          remainder_limbs = state.remainder_limbs;
        })
        | inr (e, enough) ↦
            let bit = value-set_bit s state.count quotient hs state.quotient_limbs state.multiple in
            let rest = value-subtract_abs_limbs remainder divisor state.remainder_limbs hd enough in
            let taken : (value quotient + 2 ^ s) * d ≡ value quotient * d + d * 2 ^ s =
              grind arith in
            rw e (record {
              count = suc (state.count + state.count);
              multiple = omega (arith, state.multiple, twice, doubled, one_more, bit.0);
              balance = rw bit.0 (omega (arith, state.balance, rest, hv, taken));
              bound = omega (arith, state.bound, rest, hv, wide);
              quotient_limbs = bit.1;
              remainder_limbs = subtract_abs-IsLimbs remainder divisor;
            })
      ]

length-long_step :
    (s : ℕ) (remainder divisor quotient : List ℕ)
    → length (long_step s remainder divisor quotient).0 ≡ length quotient
unfolding long_step set_bit
length-long_step s remainder divisor quotient =
    elim (Bool-cases (is_negative (compare_abs_limbs remainder divisor))) [
      | inl e ↦ rw e refl
      | inr e ↦
          rw e (length-set quotient (s / 32) (bit_or (get_or quotient (s / 32) 0) (2 ^ (s % 32))))
    ]

halved : (d s : ℕ) → d * 2 ^ suc s / 2 ≡ d * 2 ^ s
halved d s =
    let twice : d * 2 ^ suc s ≡ d * 2 ^ s * 2 = rw (pow-suc 2 s) (grind arith) in omega arith

long_loop-Divides :
    (s d total : ℕ) (quotient remainder divisor : List ℕ)
    → LoopState (suc s) d total quotient remainder
    → IsLimbs divisor
    → value divisor ≡ d * 2 ^ s
    → s < length quotient * 32
    → Divides (long_loop s remainder divisor quotient) total d
unfolding long_loop
long_loop-Divides zero d total quotient remainder divisor state hd hv hs =
    let last = long_step-LoopState zero d total quotient remainder divisor state hd hv hs in
    (last.balance, (omega (arith, last.bound), (last.quotient_limbs, last.remainder_limbs)))
long_loop-Divides (suc s) d total quotient remainder divisor state hd hv hs =
    let next = long_step-LoopState (suc s) d total quotient remainder divisor state hd hv hs in
    let half = value-shift_right_one divisor hd in
    let step = long_step (suc s) remainder divisor quotient in
    let count = length-long_step (suc s) remainder divisor quotient in
    long_loop-Divides s d total step.0 step.1 (shift_right_one divisor) next half.1
      (omega (arith, half.0, hv, halved d s)) (omega (arith, count))

module _ (dividend divisor : List ℕ) (hl : IsLimbs dividend) (hr : IsLimbs divisor)
    (kl : IsTrimmed dividend) (kr : IsTrimmed divisor) (hv : 0 < value divisor) where
  -- The first position of the divisor is above the dividend, and not negative.
  start_bound :
      value divisor ≤ value dividend
      → value dividend < value divisor * 2 ^ suc (bit_length_abs dividend - bit_length_abs divisor)
  start_bound h =
      let m = bit_length_abs dividend in
      let n = bit_length_abs divisor in
      let left = bit_length_bounds dividend hl kl (omega arith) in
      let right = bit_length_bounds divisor hr kr hv in
      elim (Bool-cases (ltb m n)) [
        | inl e ↦
            let longer : 2 ^ m ≤ 2 ^ n = pow-le-pow_right (omega arith) (ground arith) in
            let none : m - n ≡ 0 = ground arith in rw none (omega arith)
        | inr e ↦
            let shift = m - n in
            let all : n + shift ≡ m = ground arith in
            let power : 2 ^ m ≡ 2 ^ n * 2 ^ shift =
              sym (ap (λ (j : ℕ). 2 ^ j) all) ∙ pow_add n shift in
            let wide : 2 ^ n * 2 ^ shift ≤ 2 * value divisor * 2 ^ shift =
              mul-le-mul right.1 (le_refl (2 ^ shift)) in
            let double : 2 * value divisor * 2 ^ shift ≡ value divisor * 2 ^ suc shift =
              rw (pow-suc 2 shift) (grind arith) in
            omega arith
      ]

  pub divide_long-Divides : Divides (divide_long dividend divisor) (value dividend) (value divisor)
  unfolding divide_long
  divide_long-Divides = elim (less_or dividend divisor hl hr) [
    | inl (e, less) ↦ rw e (omega arith, (less, (tt, hl)))
    | inr (e, enough) ↦
        let shift = bit_length_abs dividend - bit_length_abs divisor in
        let shifted = value-shift_left_abs divisor shift hr in
        let zeros = value-zeros (shift / 32 + 1) in
        let start : LoopState (suc shift) (value divisor) (value dividend)
            (replicate (shift / 32 + 1) 0) dividend =
          record {
            count = 0;
            multiple = omega (arith, zeros.0);
            balance = rw zeros.0 (omega arith);
            bound = start_bound enough;
            quotient_limbs = zeros.1;
            remainder_limbs = hl;
          } in
        let count = length-replicate {A = ℕ} (shift / 32 + 1) 0 in
        let loop =
          long_loop-Divides shift (value divisor) (value dividend) (replicate (shift / 32 + 1) 0)
            dividend (shift_left_abs divisor shift) start shifted.1 shifted.0
            (omega (arith, count)) in
        let quotient =
          (long_loop shift dividend (shift_left_abs divisor shift)
            (replicate (shift / 32 + 1) 0)).0 in
        rw (e) (
          rw (value-trim quotient) loop.0,
          (loop.1.0, (trim-IsLimbs quotient loop.1.1.0, loop.1.1.1)),
        )
  ]
