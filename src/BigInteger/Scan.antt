-- ===== src/BigInteger/Scan.antt =====
-- The scan of `divide_abs_values` (src/classes/BigInteger.c) for a divisor of one limb.
use list_talk.Common.{
  ℕ, ◌+◌, ◌*◌, ◌/◌, ◌^◌, ◌<◌, not, List, [], ◌∷◌, ◌==◌, if◌then◌else◌, bit_or, ◌≡◌, arith,
  Bool-cases, inl, inr,
}
use native.Mathlib.Nat.{mod-lt, div-add-mod, div-lt_iff_lt-mul}
use list_talk.Common.Bits.{bit_or_fields}
use list_talk.BigInteger.Limbs.{u32, u64}
use list_talk.BigInteger.Magnitude.{value, IsLimbs, value-trim, trim-IsLimbs}
use list_talk.BigInteger.Divide.{scan_limbs, divide_single}

-- One step of the scan: the quotient digit is a limb, and the rest is below the divisor.
module _ (d r x : ℕ) (hr : r < d) (hd : d < 0x100000000) (hx : x < 0x100000000) where
  scan_current : bit_or (u64 (r * 2 ^ 32)) x ≡ r * 0x100000000 + x
  scan_current =
      let same : u64 (r * 2 ^ 32) ≡ r * 2 ^ 32 = omega arith in rw same (bit_or_fields 32 r x hx)

  scan_digit : (r * 0x100000000 + x) / d < 0x100000000
  scan_digit =
      let digit =
        div-lt_iff_lt-mul {k = d} {x = r * 0x100000000 + x} {y = 0x100000000} (omega arith) in
      digit.1 (omega arith)

expand : (a q d : ℕ) → (a + 0x100000000 * q) * d ≡ d * a + 0x100000000 * (q * d)
expand a q d = grind arith

pub value-scan_limbs :
    (d : ℕ) (limbs : List ℕ)
    → 0 < d
    → d < 0x100000000
    → IsLimbs limbs
    → (value (scan_limbs d limbs).0 * d + (scan_limbs d limbs).1 ≡ value limbs)
      × (((scan_limbs d limbs).1 < d) × IsLimbs (scan_limbs d limbs).0)
unfolding scan_limbs
value-scan_limbs d [] hd hb h = (omega arith, (hd, tt))
value-scan_limbs d (x ∷ limbs) hd hb (hx, h) =
    let above = value-scan_limbs d limbs hd hb h in
    let r = (scan_limbs d limbs).1 in
    let cur = r * 0x100000000 + x in
    let digit = scan_digit d r x above.1.0 hb hx in
    let same : u32 (cur / d) ≡ cur / d = omega arith in
    let parts = div-add-mod cur d in
    rw (scan_current d r x above.1.0 hb hx, same)
      (
        omega (arith, expand (cur / d) (value (scan_limbs d limbs).0) d, parts, above.0),
        (mod-lt cur hd, (digit, above.1.1)),
      )

-- The quotient and the remainder of a division of m by n, as limbs.
abbrev pub Divides : List ℕ × List ℕ → ℕ → ℕ → Type 0
Divides result m n =
    (value result.0 * n + value result.1 ≡ m)
    × ((value result.1 < n) × (IsLimbs result.0 × IsLimbs result.1))

single_rest :
    (r : ℕ)
    → r < 0x100000000
    → (value (if not (r == 0) then u32 r ∷ [] else []) ≡ r)
      × IsLimbs (if not (r == 0) then u32 r ∷ [] else [])
single_rest r h = elim (Bool-cases (r == 0)) [
  | inl e ↦ rw e (ground arith, tt)
  | inr e ↦ rw e (omega arith, (omega arith, tt))
]

pub divide_single-Divides :
    (dividend : List ℕ) (d : ℕ)
    → 0 < d
    → d < 0x100000000
    → IsLimbs dividend
    → Divides (divide_single dividend d) (value dividend) d
unfolding divide_single
divide_single-Divides [] d hd hb h = (omega arith, (hd, (tt, tt)))
divide_single-Divides (x ∷ limbs) d hd hb h =
    let scan = value-scan_limbs d (x ∷ limbs) hd hb h in
    let quotient = (scan_limbs d (x ∷ limbs)).0 in
    let rest = single_rest (scan_limbs d (x ∷ limbs)).1 (omega (arith, scan.1.0)) in
    (
      rw (value-trim quotient, rest.0) scan.0,
      (rw rest.0 scan.1.0, (trim-IsLimbs quotient scan.1.1, rest.1)),
    )
