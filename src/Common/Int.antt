-- ===== src/Common/Int.antt =====
-- Signed integers over the native numbers. The laws read an integer through its two parts, of
-- which one is 0, so that `omega` and `ground` decide them.
use Prim.Native.Nat.{ℕ, zero, suc, ◌+◌, ◌-◌, ◌*◌, ◌≤◌, ◌<◌}
use mathlib.Core.Path.{◌≡◌, refl}
use mathlib.Core.Bool.{Bool, true, false, not}
use native.Mathlib.Omega.{arith}
use list_talk.Common.Tests.{ltb, if◌then◌else◌}

-- `negsuc n` is -(n + 1).
pub data ℤ : Type 0 where
  pos : ℕ → ℤ
  negsuc : ℕ → ℤ

abbrev pub pos_part : ℤ → ℕ
pos_part (pos n) = n
pos_part (negsuc n) = 0

abbrev pub neg_part : ℤ → ℕ
neg_part (pos n) = 0
neg_part (negsuc n) = suc n

abbrev pub is_negative : ℤ → Bool
is_negative (pos n) = false
is_negative (negsuc n) = true

abbrev pub magnitude : ℤ → ℕ
magnitude a = pos_part a + neg_part a

abbrev pub difference : ℕ → ℕ → ℤ
difference m n = if ltb m n then negsuc (n - suc m) else pos (m - n)

-- A sign, true for minus, and an absolute value.
abbrev pub signed : Bool → ℕ → ℤ
signed false n = pos n
signed true zero = pos 0
signed true (suc n) = negsuc n

infixl 65 ◌+ℤ◌ ◌-ℤ◌
infixl 70 ◌*ℤ◌
unfoldable pub ◌+ℤ◌ : ℤ → ℤ → ℤ
a +ℤ b = difference (pos_part a + pos_part b) (neg_part a + neg_part b)

abbrev pub neg : ℤ → ℤ
neg a = difference (neg_part a) (pos_part a)

unfoldable pub ◌-ℤ◌ : ℤ → ℤ → ℤ
unfolding ◌+ℤ◌
a -ℤ b = a +ℤ neg b

abbrev pub xor : Bool → Bool → Bool
xor false t = t
xor true t = not t

unfoldable pub ◌*ℤ◌ : ℤ → ℤ → ℤ
a *ℤ b = signed (xor (is_negative a) (is_negative b)) (magnitude a * magnitude b)

abbrev pub ltb_ℤ : ℤ → ℤ → Bool
ltb_ℤ a b = ltb (pos_part a + neg_part b) (pos_part b + neg_part a)

-- -1, 0 or 1, as a C comparison answers.
abbrev pub compare_ℤ : ℤ → ℤ → ℤ
compare_ℤ a b = if ltb_ℤ a b then negsuc 0 else if ltb_ℤ b a then pos 1 else pos 0

pub signed-magnitude : (a : ℤ) → signed (is_negative a) (magnitude a) ≡ a
signed-magnitude (pos n) = ground arith
signed-magnitude (negsuc n) = ground arith

pub magnitude-signed : (s : Bool) (n : ℕ) → magnitude (signed s n) ≡ n
magnitude-signed false n = omega arith
magnitude-signed true zero = refl
magnitude-signed true (suc n) = omega arith

pub neg-signed : (s : Bool) (n : ℕ) → neg (signed s n) ≡ signed (not s) n
neg-signed false zero = ground arith
neg-signed false (suc n) = ground arith
neg-signed true zero = ground arith
neg-signed true (suc n) = ground arith

-- The sum by the signs: equal signs add, and of two different ones the larger number keeps its.
module _ (s : Bool) (m n : ℕ) where
  pub signed-add : signed s m +ℤ signed s n ≡ signed s (m + n)
  unfolding ◌+ℤ◌
  signed-add = ground arith

  pub signed-sub_left : n ≤ m → signed s m +ℤ signed (not s) n ≡ signed s (m - n)
  unfolding ◌+ℤ◌
  signed-sub_left h = ground arith

  pub signed-sub_right : m ≤ n → signed s m +ℤ signed (not s) n ≡ signed (not s) (n - m)
  unfolding ◌+ℤ◌
  signed-sub_right h = ground arith

pub signed-mul : (s t : Bool) (m n : ℕ) → signed s m *ℤ signed t n ≡ signed (xor s t) (m * n)
unfolding ◌*ℤ◌
signed-mul s t m n = ground arith

pub sign_of : (s : Bool) (n : ℕ) → 0 < n → is_negative (signed s n) ≡ s
sign_of false n h = refl
sign_of true zero h = absurd (omega arith)
sign_of true (suc n) h = refl
