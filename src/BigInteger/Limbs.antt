-- ===== src/BigInteger/Limbs.antt =====
-- The limb arithmetic of src/classes/BigInteger.c: trimming, comparison, addition, subtraction and
-- multiplication of magnitudes.
use list_talk.Common.{
  ℕ, zero, suc, ◌+◌, ◌-◌, ◌*◌, ◌/◌, ◌%◌, Bool, true, false, ◌||◌, List, [], ◌∷◌, length, replicate,
  ltb, if◌then◌else◌,
}
use list_talk.Common.Int.{ℤ, pos, negsuc}

-- 2^32, of which the limbs are the digits.
abbrev pub base : ℕ
base = 0x100000000

-- The conversions to `uint32_t` and `uint64_t`, and the shift by 32 bits to the right.
abbrev pub u32 : ℕ → ℕ
u32 n = n % 0x100000000

abbrev pub u64 : ℕ → ℕ
u64 n = n % 0x10000000000000000

abbrev pub high : ℕ → ℕ
high n = n / 0x100000000

abbrev pub low_limb : List ℕ → ℕ
low_limb [] = 0
low_limb (x ∷ limbs) = x

abbrev pub higher_limbs : List ℕ → List ℕ
higher_limbs [] = []
higher_limbs (x ∷ limbs) = limbs

abbrev pub is_empty : List ℕ → Bool
is_empty [] = true
is_empty (x ∷ limbs) = false

-- The test of `trim_limb_count` at one limb, given what is left of the limbs above it.
abbrev pub keep_limb : ℕ → List ℕ → List ℕ
keep_limb zero [] = []
keep_limb (suc x) [] = suc x ∷ []
keep_limb x (y ∷ rest) = x ∷ y ∷ rest

-- `trim_limb_count`: the limbs without the zeros at the high end.
unfoldable pub trim : List ℕ → List ℕ
trim [] = []
trim (x ∷ limbs) = keep_limb x (trim limbs)

-- The test of one limb in the loop of `compare_abs_limbs`, after the limbs above it.
abbrev pub compare_low : ℤ → ℕ → ℕ → ℤ
compare_low (pos zero) x y = if ltb x y then negsuc 0 else if ltb y x then pos 1 else pos 0
compare_low above x y = above

-- The loop of `compare_abs_limbs`, from the highest limb down.
unfoldable pub compare_limbs : List ℕ → List ℕ → ℤ
compare_limbs [] right = pos 0
compare_limbs (x ∷ left) [] = pos 0
compare_limbs (x ∷ left) (y ∷ right) = compare_low (compare_limbs left right) x y

-- `compare_abs_limbs`
unfoldable pub compare_abs_limbs : List ℕ → List ℕ → ℤ
unfolding trim compare_limbs
compare_abs_limbs left right =
    let left = trim left in
    let right = trim right in
    if ltb (length left) (length right)
    then negsuc 0
    else if ltb (length right) (length left)
    then pos 1
    else compare_limbs left right

-- The loop of `add_abs_limbs`.
unfoldable pub add_loop : ℕ → List ℕ → List ℕ → List ℕ
add_loop carry [] [] = u32 carry ∷ []
add_loop carry (x ∷ left) [] = let sum = u64 (carry + x) in u32 sum ∷ add_loop (high sum) left []
add_loop carry [] (y ∷ right) = let sum = u64 (carry + y) in u32 sum ∷ add_loop (high sum) [] right
add_loop carry (x ∷ left) (y ∷ right) =
    let sum = u64 (carry + x + y) in u32 sum ∷ add_loop (high sum) left right

-- `add_abs_limbs`
unfoldable pub add_abs_limbs : List ℕ → List ℕ → List ℕ
unfolding trim add_loop
add_abs_limbs left right = trim (add_loop 0 left right)

-- The loop of `subtract_abs_limbs` and of `subtract_abs_inplace`.
unfoldable pub subtract_loop : ℕ → List ℕ → List ℕ → List ℕ
subtract_loop borrow [] right = []
subtract_loop borrow (x ∷ left) right =
    let subtrahend = low_limb right + borrow in
    let short = ltb x subtrahend in
    (if short then u32 (base + x - subtrahend) else u32 (x - subtrahend))
    ∷ subtract_loop (if short then 1 else 0) left (higher_limbs right)

-- `subtract_abs_limbs`, and `subtract_abs_inplace`, which writes the same limbs over the left ones.
unfoldable pub subtract_abs_limbs : List ℕ → List ℕ → List ℕ
unfolding trim subtract_loop
subtract_abs_limbs left right = trim (subtract_loop 0 left right)

-- The carry loop at the end of a row of `multiply_abs_limbs`.
unfoldable pub carry_loop : ℕ → List ℕ → List ℕ
carry_loop zero result = result
carry_loop (suc carry) [] = []
carry_loop (suc carry) (r ∷ result) =
    let sum = u64 (r + suc carry) in u32 sum ∷ carry_loop (high sum) result

-- A row of `multiply_abs_limbs`, on the result from `left_index` on.
unfoldable pub multiply_row : ℕ → ℕ → List ℕ → List ℕ → List ℕ
unfolding carry_loop
multiply_row x carry [] result = carry_loop carry result
multiply_row x carry (y ∷ right) [] = []
multiply_row x carry (y ∷ right) (r ∷ result) =
    let product = u64 (x * y + r + carry) in
    u32 product ∷ multiply_row x (high product) right result

-- The rows of `multiply_abs_limbs`: the lowest limb of the result is final after a row.
unfoldable pub multiply_rows : List ℕ → List ℕ → List ℕ → List ℕ
unfolding multiply_row
multiply_rows [] right result = result
multiply_rows (x ∷ left) right result =
    let row = multiply_row x 0 right result in
    low_limb row ∷ multiply_rows left right (higher_limbs row)

-- `multiply_abs_limbs`
unfoldable pub multiply_abs_limbs : List ℕ → List ℕ → List ℕ
unfolding trim multiply_rows
multiply_abs_limbs left right =
    if is_empty left || is_empty right
    then []
    else trim (multiply_rows left right (replicate (length left + length right) 0))
