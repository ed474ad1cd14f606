-- ===== src/BigInteger/Canonical.antt =====
-- The canonical form of an integer, and `make_integer_from_limbs` and `integer_ref_init`, which go
-- to it and from it (src/classes/BigInteger.c).
use list_talk.Common.{
  ℕ, zero, suc, ◌+◌, ◌*◌, ◌<◌, ◌≤◌, Bool, true, false, List, [], ◌∷◌, Option, none, some, ◌==◌,
  if◌then◌else◌, ◌≡◌, refl, ap, sym, ◌∙◌, arith, Bool-cases, inl, inr, bit_or,
}
use list_talk.Common.Bits.{bit_or_fields}
use list_talk.Common.Int.{ℤ, pos, magnitude, signed, signed-magnitude}
use list_talk.BigInteger.{
  Integer, fixnum, big, IntegerRef, in_range, small_limbs, integer_ref, fit_magnitude, fit_trimmed,
  limbs_fit_fixnum, fixnum_or_big, make_integer_from_limbs,
}
use list_talk.BigInteger.Limbs.{u64, high, is_empty, trim}
use list_talk.BigInteger.Magnitude.{
  value, IsLimbs, IsTrimmed, value-trim, trim-IsTrimmed, trim-IsLimbs,
}
use list_talk.BigInteger.Order.{value-injective}

abbrev pub to_int : Integer → ℤ
to_int (fixnum small) = small
to_int (big negative limbs) = signed negative (value limbs)

abbrev pub fixnum_of : ℤ → Option ℤ
fixnum_of n = if in_range n then some n else none

-- What the operations keep: a fixnum is in range, and what is in range is a fixnum.
abbrev pub IsInteger : Integer → Type 0
IsInteger (fixnum small) = in_range small ≡ true
IsInteger (big negative limbs) =
    IsLimbs limbs × (IsTrimmed limbs × (in_range (signed negative (value limbs)) ≡ false))

abbrev pub IsRef : IntegerRef → Type 0
IsRef ref = IsLimbs ref.limbs × IsTrimmed ref.limbs

abbrev pub ref_int : IntegerRef → ℤ
ref_int ref = signed ref.negative (value ref.limbs)

fit_magnitude-fixnum_of : (s : Bool) (m : ℕ) → fit_magnitude s m ≡ fixnum_of (signed s m)
unfolding fit_magnitude in_range
fit_magnitude-fixnum_of false m = ground arith
fit_magnitude-fixnum_of true zero = ground arith
fit_magnitude-fixnum_of true (suc m) = ground arith

large-in_range : (s : Bool) (m : ℕ) → 0x100000000 * 0x100000000 ≤ m → in_range (signed s m) ≡ false
unfolding in_range
large-in_range false m h = ground arith
large-in_range true zero h = absurd (omega arith)
large-in_range true (suc m) h = ground arith

fit_trimmed-fixnum_of :
    (s : Bool) (limbs : List ℕ)
    → IsLimbs limbs
    → IsTrimmed limbs
    → fit_trimmed s limbs ≡ fixnum_of (signed s (value limbs))
unfolding fit_trimmed in_range
fit_trimmed-fixnum_of false [] h t = refl
fit_trimmed-fixnum_of true [] h t = refl
fit_trimmed-fixnum_of s (x ∷ []) h t =
    let one : x + 0x100000000 * 0 ≡ x = omega arith in
    fit_magnitude-fixnum_of s x ∙ ap (λ (n : ℕ). fixnum_of (signed s n)) (sym one)
fit_trimmed-fixnum_of s (x ∷ y ∷ []) (hx, h) t =
    let two : bit_or (y * 0x100000000) x ≡ x + 0x100000000 * (y + 0x100000000 * 0) =
      omega (arith, bit_or_fields 32 y x hx) in
    rw two (fit_magnitude-fixnum_of s (x + 0x100000000 * (y + 0x100000000 * 0)))
fit_trimmed-fixnum_of s (x ∷ y ∷ z ∷ limbs) h (tx, (ty, (tz, t))) =
    rw
      (large-in_range s (x + 0x100000000 * (y + 0x100000000 * (z + 0x100000000 * value limbs)))
        (omega arith))
      refl

pub limbs_fit_fixnum-fixnum_of :
    (s : Bool) (limbs : List ℕ)
    → IsLimbs limbs
    → limbs_fit_fixnum s limbs ≡ fixnum_of (signed s (value limbs))
unfolding limbs_fit_fixnum
limbs_fit_fixnum-fixnum_of s limbs h =
    fit_trimmed-fixnum_of s (trim limbs) (trim-IsLimbs limbs h) (trim-IsTrimmed limbs)
    ∙ ap (λ (n : ℕ). fixnum_of (signed s n)) (value-trim limbs)

-- A value that stands for the number and is in the form that the operations keep.
abbrev pub Stands : Integer → ℤ → Type 0
Stands v n = (to_int v ≡ n) × IsInteger v

fixnum_or_big-Stands :
    (s : Bool) (limbs : List ℕ)
    → IsLimbs limbs
    → IsTrimmed limbs
    → Stands (fixnum_or_big (fixnum_of (signed s (value limbs))) s limbs) (signed s (value limbs))
fixnum_or_big-Stands s limbs h t = elim (Bool-cases (in_range (signed s (value limbs)))) [
  | inl e ↦ rw e (refl, e)
  | inr e ↦ rw e (refl, (h, (t, e)))
]

pub signed_zero : (s : Bool) → pos 0 ≡ signed s 0
signed_zero false = refl
signed_zero true = refl

make_kept :
    (s : Bool) (limbs : List ℕ)
    → IsLimbs limbs
    → IsTrimmed limbs
    → Stands
        (if is_empty limbs
          then fixnum (pos 0)
          else fixnum_or_big (limbs_fit_fixnum s limbs) s limbs)
        (signed s (value limbs))
unfolding in_range
make_kept s [] h t = (signed_zero s, refl)
make_kept s (x ∷ limbs) h t =
    rw (limbs_fit_fixnum-fixnum_of s (x ∷ limbs) h) (fixnum_or_big-Stands s (x ∷ limbs) h t)

pub make_integer-Stands :
    (s : Bool) (limbs : List ℕ) {n : ℕ}
    → IsLimbs limbs
    → value limbs ≡ n
    → Stands (make_integer_from_limbs s limbs) (signed s n)
unfolding make_integer_from_limbs
make_integer-Stands s limbs h e =
    rw (← (value-trim limbs ∙ e))
      (make_kept s (trim limbs) (trim-IsLimbs limbs h) (trim-IsTrimmed limbs))

small_limbs-value :
    (m : ℕ)
    → m < 0x10000000000000000
    → (value (small_limbs m) ≡ m) × (IsLimbs (small_limbs m) × IsTrimmed (small_limbs m))
unfolding small_limbs
small_limbs-value m h = elim (Bool-cases (m == 0)) [
  | inl e ↦ rw e (ground arith, (tt, tt))
  | inr e ↦ rw e (elim (Bool-cases (high m == 0)) [
    | inl f ↦ rw f (ground arith, ((omega arith, tt), (ground arith, tt)))
    | inr f ↦
        rw f (omega arith, ((omega arith, (omega arith, tt)), (ground arith, (ground arith, tt))))
  ])
]

in_range-magnitude : (n : ℤ) → in_range n ≡ true → magnitude n < 0x10000000000000000
unfolding in_range
in_range-magnitude n h = ground arith

pub integer_ref-ref_int : (v : Integer) → IsInteger v → ref_int (integer_ref v) ≡ to_int v
unfolding integer_ref
integer_ref-ref_int (fixnum n) h =
    let small = in_range-magnitude n h in
    let same : u64 (magnitude n) ≡ magnitude n = omega arith in
    rw (same, (small_limbs-value (magnitude n) small).0) (signed-magnitude n)
integer_ref-ref_int (big s limbs) h = refl

pub integer_ref-IsRef : (v : Integer) → IsInteger v → IsRef (integer_ref v)
unfolding integer_ref
integer_ref-IsRef (fixnum n) h =
    let small = in_range-magnitude n h in
    let same : u64 (magnitude n) ≡ magnitude n = omega arith in
    rw same (small_limbs-value (magnitude n) small).1
integer_ref-IsRef (big s limbs) (h, (t, e)) = (h, t)

-- The sign and the limbs of an integer in this form are those of its number.
signed_injective : (s t : Bool) (m n : ℕ) → 0 < m → signed s m ≡ signed t n → (s ≡ t) × (m ≡ n)
signed_injective s t m n h e = ground arith

pub nonzero : (s : Bool) (m : ℕ) → in_range (signed s m) ≡ false → 0 < m
unfolding in_range
nonzero s m h = ground arith

-- Two integers in canonical form that stand for the same number are the same value: a fixnum and a
-- `LT_BigInteger` are never equal numbers, and equal numbers have the same sign and limbs.
pub to_int-injective : (a b : Integer) → IsInteger a → IsInteger b → to_int a ≡ to_int b → a ≡ b
to_int-injective (fixnum m) (fixnum n) ha hb e = ap fixnum e
to_int-injective (fixnum m) (big t right) ha (hr, (kr, fr)) e = cc
to_int-injective (big s left) (fixnum n) (hl, (kl, fl)) hb e = cc
to_int-injective (big s left) (big t right) (hl, (kl, fl)) (hr, (kr, fr)) e =
    let same = signed_injective s t (value left) (value right) (nonzero s (value left) fl) e in
    let limbs = value-injective left right hl hr kl kr same.1 in cc
