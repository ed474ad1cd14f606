-- ===== src/BigInteger/Magnitude.antt =====
-- The numbers that limbs denote (src/classes/BigInteger.c): what trimming, comparison, addition and
-- subtraction of magnitudes do to them.
use list_talk.Common.{
  ℕ, zero, suc, ◌+◌, ◌-◌, ◌*◌, ◌<◌, ◌≤◌, Bool, true, false, List, [], ◌∷◌, ltb, ltb→lt,
  if◌then◌else◌, ◌≡◌, refl, arith, All, Bool-cases, inl, inr,
}
use list_talk.BigInteger.Limbs.{
  u32, u64, high, low_limb, higher_limbs, keep_limb, trim, add_loop, add_abs_limbs, subtract_loop,
  subtract_abs_limbs,
}

abbrev pub value : List ℕ → ℕ
value [] = 0
value (x ∷ limbs) = x + 0x100000000 * value limbs

-- Every limb is a `uint32_t`.
abbrev pub IsLimbs : List ℕ → Type 0
IsLimbs limbs = All (λ x. x < 0x100000000) limbs

-- No zero stands at the high end.
abbrev pub IsTrimmed : List ℕ → Type 0
IsTrimmed [] = Unit
IsTrimmed (x ∷ limbs) = (0 < x + 0x100000000 * value limbs) × IsTrimmed limbs

-- Trimming keeps the number and the width of the limbs, and reaches the trimmed form.
value-keep_limb : (x : ℕ) (rest : List ℕ) → value (keep_limb x rest) ≡ x + 0x100000000 * value rest
value-keep_limb zero [] = refl
value-keep_limb (suc x) [] = refl
value-keep_limb x (y ∷ rest) = refl

keep_limb-IsTrimmed : (x : ℕ) (rest : List ℕ) → IsTrimmed rest → IsTrimmed (keep_limb x rest)
keep_limb-IsTrimmed zero [] h = tt
keep_limb-IsTrimmed (suc x) [] h = (omega arith, tt)
keep_limb-IsTrimmed x (y ∷ rest) (hy, h) = (omega arith, (hy, h))

keep_limb-IsLimbs :
    (x : ℕ) (rest : List ℕ) → x < 0x100000000 → IsLimbs rest → IsLimbs (keep_limb x rest)
keep_limb-IsLimbs zero [] hx h = h
keep_limb-IsLimbs (suc x) [] hx h = (hx, h)
keep_limb-IsLimbs x (y ∷ rest) hx h = (hx, h)

keep_limb-kept :
    (x : ℕ) (rest : List ℕ) → 0 < x + 0x100000000 * value rest → keep_limb x rest ≡ x ∷ rest
keep_limb-kept zero [] h = absurd (omega arith)
keep_limb-kept (suc x) [] h = refl
keep_limb-kept x (y ∷ rest) h = refl

pub value-trim : (limbs : List ℕ) → value (trim limbs) ≡ value limbs
unfolding trim
value-trim [] = refl
value-trim (x ∷ limbs) = omega (arith, value-keep_limb x (trim limbs), value-trim limbs)

pub trim-IsTrimmed : (limbs : List ℕ) → IsTrimmed (trim limbs)
unfolding trim
trim-IsTrimmed [] = tt
trim-IsTrimmed (x ∷ limbs) = keep_limb-IsTrimmed x (trim limbs) (trim-IsTrimmed limbs)

pub trim-IsLimbs : (limbs : List ℕ) → IsLimbs limbs → IsLimbs (trim limbs)
unfolding trim
trim-IsLimbs [] h = h
trim-IsLimbs (x ∷ limbs) (hx, h) = keep_limb-IsLimbs x (trim limbs) hx (trim-IsLimbs limbs h)

pub trim-kept : (limbs : List ℕ) → IsTrimmed limbs → trim limbs ≡ limbs
unfolding trim
trim-kept [] h = refl
trim-kept (x ∷ limbs) (hx, h) = rw (trim-kept limbs h) (keep_limb-kept x limbs hx)

pub value-add_loop :
    (carry : ℕ) (left right : List ℕ)
    → carry < 0x100000000
    → IsLimbs left
    → IsLimbs right
    → value (add_loop carry left right) ≡ carry + value left + value right
unfolding add_loop
value-add_loop carry [] [] hc hl hr = omega arith
value-add_loop carry (x ∷ left) [] hc (hx, hl) hr =
    omega (arith, value-add_loop (high (u64 (carry + x))) left [] (omega arith) hl hr)
value-add_loop carry [] (y ∷ right) hc hl (hy, hr) =
    omega (arith, value-add_loop (high (u64 (carry + y))) [] right (omega arith) hl hr)
value-add_loop carry (x ∷ left) (y ∷ right) hc (hx, hl) (hy, hr) =
    omega (arith, value-add_loop (high (u64 (carry + x + y))) left right (omega arith) hl hr)

pub low_and_higher :
    (limbs : List ℕ)
    → IsLimbs limbs
    → (value limbs ≡ low_limb limbs + 0x100000000 * value (higher_limbs limbs))
      × ((low_limb limbs < 0x100000000) × IsLimbs (higher_limbs limbs))
low_and_higher [] h = (omega arith, (omega arith, h))
low_and_higher (x ∷ limbs) (hx, h) = (refl, (hx, h))

pub value-subtract_loop :
    (borrow : ℕ) (left right : List ℕ)
    → borrow < 2
    → IsLimbs left
    → IsLimbs right
    → value right + borrow ≤ value left
    → value (subtract_loop borrow left right) + value right + borrow ≡ value left
unfolding subtract_loop
value-subtract_loop borrow [] right hb hl hr h = omega arith
value-subtract_loop borrow (x ∷ left) right hb (hx, hl) hr h =
    let y = low_limb right in
    let split = low_and_higher right hr in
    let rest = higher_limbs right in
    elim (Bool-cases (ltb x (y + borrow))) [
      | inl e ↦ rw e (
          let short = ltb→lt x (y + borrow) e in
          omega (
            arith,
            split.0,
            split.1.0,
            value-subtract_loop 1 left rest (omega arith) hl split.1.1
                (omega (arith, split.0, split.1.0)),
          ))
      | inr e ↦ rw e (
          let enough : y + borrow ≤ x = ground arith in
          omega (
            arith,
            split.0,
            value-subtract_loop 0 left rest (omega arith) hl split.1.1
                (omega (arith, split.0, split.1.0)),
          ))
    ]

pub value-add_abs_limbs :
    (left right : List ℕ)
    → IsLimbs left
    → IsLimbs right
    → value (add_abs_limbs left right) ≡ value left + value right
unfolding add_abs_limbs
value-add_abs_limbs left right hl hr =
    omega
      (arith, value-trim (add_loop 0 left right), value-add_loop 0 left right (omega arith) hl hr)

pub value-subtract_abs_limbs :
    (left right : List ℕ)
    → IsLimbs left
    → IsLimbs right
    → value right ≤ value left
    → value (subtract_abs_limbs left right) ≡ value left - value right
unfolding subtract_abs_limbs
value-subtract_abs_limbs left right hl hr h = omega (
  arith,
  value-trim (subtract_loop 0 left right),
  value-subtract_loop 0 left right (omega arith) hl hr (omega arith),
)

add_loop-IsLimbs : (carry : ℕ) (left right : List ℕ) → IsLimbs (add_loop carry left right)
unfolding add_loop
add_loop-IsLimbs carry [] [] = (omega arith, tt)
add_loop-IsLimbs carry (x ∷ left) [] =
    (omega arith, add_loop-IsLimbs (high (u64 (carry + x))) left [])
add_loop-IsLimbs carry [] (y ∷ right) =
    (omega arith, add_loop-IsLimbs (high (u64 (carry + y))) [] right)
add_loop-IsLimbs carry (x ∷ left) (y ∷ right) =
    (omega arith, add_loop-IsLimbs (high (u64 (carry + x + y))) left right)

u32_either : (b : Bool) (m n : ℕ) → (if b then u32 m else u32 n) < 0x100000000
u32_either true m n = omega arith
u32_either false m n = omega arith

subtract_loop-IsLimbs :
    (borrow : ℕ) (left right : List ℕ) → IsLimbs (subtract_loop borrow left right)
unfolding subtract_loop
subtract_loop-IsLimbs borrow [] right = tt
subtract_loop-IsLimbs borrow (x ∷ left) right = (
  u32_either (ltb x (low_limb right + borrow)) _ _,
  subtract_loop-IsLimbs (if ltb x (low_limb right + borrow) then 1 else 0) left
      (higher_limbs right),
)

module _ (left right : List ℕ) where
  pub add_abs-IsLimbs : IsLimbs (add_abs_limbs left right)
  unfolding add_abs_limbs
  add_abs-IsLimbs = trim-IsLimbs (add_loop 0 left right) (add_loop-IsLimbs 0 left right)

  pub subtract_abs-IsLimbs : IsLimbs (subtract_abs_limbs left right)
  unfolding subtract_abs_limbs
  subtract_abs-IsLimbs =
      trim-IsLimbs (subtract_loop 0 left right) (subtract_loop-IsLimbs 0 left right)
