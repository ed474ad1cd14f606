-- ===== src/BigInteger/Widths.antt =====
-- The conversions of src/classes/BigInteger.c to C integers against the ranges of their types.
use list_talk.Common.{
  ℕ, zero, suc, ◌*◌, ◌<◌, ◌≤◌, Bool, true, false, ◌&&◌, ◌||◌, List, [], ◌∷◌, Option, none, some,
  ◌==◌, ltb, leb, if◌then◌else◌, length, bit_or, ◌≡◌, refl, ap, sym, ◌∙◌, arith, Bool-cases, inl,
  inr,
}
use list_talk.Common.Bits.{bit_or_fields}
use list_talk.Common.Int.{
  ℤ, pos, negsuc, pos_part, neg_part, is_negative, magnitude, signed, magnitude-signed, sign_of,
}
use list_talk.BigInteger.{Integer, fixnum, big, integer_ref}
use list_talk.BigInteger.Limbs.{low_limb}
use list_talk.BigInteger.Magnitude.{value, IsLimbs, IsTrimmed}
use list_talk.BigInteger.Canonical.{
  to_int, IsInteger, nonzero, integer_ref-ref_int, integer_ref-IsRef,
}

abbrev pub int64_max : ℕ
int64_max = 0x7fffffffffffffff

-- The magnitude that the conversions put together from up to two limbs.
unfoldable pub limb_pair : List ℕ → ℕ
limb_pair [] = 0
limb_pair (x ∷ []) = x
limb_pair (x ∷ y ∷ limbs) = bit_or (y * 0x100000000) x

-- The tests of `LT_Integer_to_int64` on the sign and the magnitude.
unfoldable pub int64_of : Bool → ℕ → Option ℤ
int64_of false magnitude = if ltb int64_max magnitude then none else some (pos magnitude)
int64_of true magnitude =
    if ltb (suc int64_max) magnitude
    then none
    else if magnitude == suc int64_max
    then some (negsuc int64_max)
    else some (signed true magnitude)

-- `LT_Integer_to_int64`
unfoldable pub integer_to_int64 : Integer → Option ℤ
unfolding int64_of
integer_to_int64 v =
    let ref = integer_ref v in
    if ltb 2 (length ref.limbs) then none else int64_of ref.negative (limb_pair ref.limbs)

-- `LT_Integer_to_uint64`
unfoldable pub integer_to_uint64 : Integer → Option ℕ
integer_to_uint64 v =
    let ref = integer_ref v in
    if ref.negative || ltb 2 (length ref.limbs) then none else some (limb_pair ref.limbs)

-- `LT_Integer_to_uint32`
unfoldable pub integer_to_uint32 : Integer → Option ℕ
integer_to_uint32 v =
    let ref = integer_ref v in
    if ref.negative || ltb 1 (length ref.limbs) then none else some (low_limb ref.limbs)

low_pair :
    (limbs : List ℕ)
    → IsLimbs limbs
    → length limbs ≤ 2
    → (limb_pair limbs ≡ value limbs) × (value limbs < 0x10000000000000000)
unfolding limb_pair
low_pair [] h e = (refl, omega arith)
low_pair (x ∷ []) (hx, h) e = (omega arith, omega arith)
low_pair (x ∷ y ∷ []) (hx, (hy, h)) e = (omega (arith, bit_or_fields 32 y x hx), omega arith)
low_pair (x ∷ y ∷ z ∷ limbs) h e = absurd (omega arith)

one_limb :
    (limbs : List ℕ)
    → IsLimbs limbs
    → length limbs ≤ 1
    → (low_limb limbs ≡ value limbs) × (value limbs < 0x100000000)
one_limb [] h e = (refl, omega arith)
one_limb (x ∷ []) (hx, h) e = (omega arith, omega arith)
one_limb (x ∷ y ∷ limbs) h e = absurd (omega arith)

beyond_two :
    (limbs : List ℕ) → IsTrimmed limbs → 2 < length limbs → 0x10000000000000000 ≤ value limbs
beyond_two [] k e = absurd (omega arith)
beyond_two (x ∷ []) k e = absurd (omega arith)
beyond_two (x ∷ y ∷ []) k e = absurd (omega arith)
beyond_two (x ∷ y ∷ z ∷ limbs) (kx, (ky, (kz, k))) e = omega arith

beyond_one : (limbs : List ℕ) → IsTrimmed limbs → 1 < length limbs → 0x100000000 ≤ value limbs
beyond_one [] k e = absurd (omega arith)
beyond_one (x ∷ []) k e = absurd (omega arith)
beyond_one (x ∷ y ∷ limbs) (kx, (ky, k)) e = omega arith

int64_of-signed :
    (s : Bool) (m : ℕ)
    → int64_of s m ≡ (
        if leb (pos_part (signed s m)) int64_max && leb (neg_part (signed s m)) (suc int64_max)
        then some (signed s m)
        else none)
unfolding int64_of
int64_of-signed false m = ground arith
int64_of-signed true zero = ground arith
int64_of-signed true (suc m) = ground arith

int64_beyond :
    (s : Bool) (m : ℕ)
    → 0x10000000000000000 ≤ m
    → none ≡ (
        if leb (pos_part (signed s m)) int64_max && leb (neg_part (signed s m)) (suc int64_max)
        then some (signed s m)
        else none)
int64_beyond false m h = ground arith
int64_beyond true zero h = absurd (omega arith)
int64_beyond true (suc m) h = ground arith

at_least_holds : (m n : ℕ) → m ≤ n → leb m n ≡ true
at_least_holds m n h = ground arith

at_least_fails : (m n : ℕ) → n < m → leb m n ≡ false
at_least_fails m n h = ground arith

either_holds : (s : Bool) → (s || true) ≡ true
either_holds true = refl
either_holds false = refl

pub integer_to_int64_lem :
    (v : Integer)
    → IsInteger v
    → integer_to_int64 v ≡ (
        if leb (pos_part (to_int v)) int64_max && leb (neg_part (to_int v)) (suc int64_max)
        then some (to_int v)
        else none)
unfolding integer_to_int64
integer_to_int64_lem v h =
    let ref = integer_ref v in
    let r = integer_ref-IsRef v h in
    rw (← integer_ref-ref_int v h) (elim (Bool-cases (ltb 2 (length ref.limbs))) [
      | inl e ↦
          rw e
            (int64_beyond ref.negative (value ref.limbs) (beyond_two ref.limbs r.1 (ground arith)))
      | inr e ↦
          rw (e, (low_pair ref.limbs r.0 (ground arith)).0)
            (int64_of-signed ref.negative (value ref.limbs))
    ])

integer_ref-negative :
    (v : Integer) → IsInteger v → (integer_ref v).negative ≡ is_negative (to_int v)
unfolding integer_ref
integer_ref-negative (fixnum n) h = refl
integer_ref-negative (big s limbs) (h, (k, e)) =
    sym (sign_of s (value limbs) (nonzero s (value limbs) e))

integer_ref-magnitude :
    (v : Integer) → IsInteger v → value (integer_ref v).limbs ≡ magnitude (to_int v)
integer_ref-magnitude v h =
    let ref = integer_ref v in
    sym (magnitude-signed ref.negative (value ref.limbs)) ∙ ap magnitude (integer_ref-ref_int v h)

pub integer_to_uint64_lem :
    (v : Integer)
    → IsInteger v
    → integer_to_uint64 v ≡ (
        if is_negative (to_int v) || leb 0x10000000000000000 (magnitude (to_int v))
        then none
        else some (magnitude (to_int v)))
unfolding integer_to_uint64
integer_to_uint64_lem v h =
    let ref = integer_ref v in
    let r = integer_ref-IsRef v h in
    rw (← integer_ref-negative v h, ← integer_ref-magnitude v h)
      (elim (Bool-cases (ltb 2 (length ref.limbs))) [
        | inl e ↦
            rw
              (
                e,
                at_least_holds 0x10000000000000000 (value ref.limbs)
                    (beyond_two ref.limbs r.1 (ground arith)),
              )
              (rw (either_holds ref.negative) refl)
        | inr e ↦
            let low = low_pair ref.limbs r.0 (ground arith) in
            rw (e, low.0, at_least_fails 0x10000000000000000 (value ref.limbs) low.1) refl
      ])

pub integer_to_uint32_lem :
    (v : Integer)
    → IsInteger v
    → integer_to_uint32 v ≡ (
        if is_negative (to_int v) || leb 0x100000000 (magnitude (to_int v))
        then none
        else some (magnitude (to_int v)))
unfolding integer_to_uint32
integer_to_uint32_lem v h =
    let ref = integer_ref v in
    let r = integer_ref-IsRef v h in
    rw (← integer_ref-negative v h, ← integer_ref-magnitude v h)
      (elim (Bool-cases (ltb 1 (length ref.limbs))) [
        | inl e ↦
            rw
              (
                e,
                at_least_holds 0x100000000 (value ref.limbs)
                    (beyond_one ref.limbs r.1 (ground arith)),
              )
              (rw (either_holds ref.negative) refl)
        | inr e ↦
            let low = one_limb ref.limbs r.0 (ground arith) in
            rw (e, low.0, at_least_fails 0x100000000 (value ref.limbs) low.1) refl
      ])
