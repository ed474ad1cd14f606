-- ===== src/BigInteger/Products.antt =====
-- The rows of `multiply_abs_limbs` (src/classes/BigInteger.c) against the product of the numbers,
-- and the room that its limbs have.
use list_talk.Common.{
  ℕ, zero, suc, ◌+◌, ◌*◌, ◌<◌, ◌≤◌, List, [], ◌∷◌, length, replicate, ◌≡◌, refl, ap, ◌∙◌, arith,
  length-replicate,
}
use native.Mathlib.Nat.{mul-le-mul}
use list_talk.BigInteger.Limbs.{
  u64, high, higher_limbs, carry_loop, multiply_row, multiply_rows, trim, multiply_abs_limbs,
}
use list_talk.BigInteger.Magnitude.{value, IsLimbs, low_and_higher, value-trim, trim-IsLimbs}

-- The numbers below `room n` are those that `n` limbs hold.
abbrev pub room : ℕ → ℕ
room zero = 1
room (suc n) = 0x100000000 * room n

value-room : (limbs : List ℕ) → IsLimbs limbs → value limbs < room (length limbs)
value-room [] h = omega arith
value-room (x ∷ limbs) (hx, h) = omega (arith, value-room limbs h)

value-carry_loop :
    (carry : ℕ) (result : List ℕ)
    → carry < 0x100000000
    → IsLimbs result
    → value result + carry < room (length result)
    → (value (carry_loop carry result) ≡ value result + carry)
      × ((length (carry_loop carry result) ≡ length result) × IsLimbs (carry_loop carry result))
unfolding carry_loop
value-carry_loop zero result hc hr h = (omega arith, (refl, hr))
value-carry_loop (suc carry) [] hc hr h = absurd (omega arith)
value-carry_loop (suc carry) (r ∷ result) hc (hx, hr) h =
    let rest =
      value-carry_loop (high (u64 (r + suc carry))) result (omega arith) hr (omega arith) in
    (omega (arith, rest.0), (omega (arith, rest.1.0), (omega arith, rest.1.1)))

distribute : (x y v : ℕ) → x * (y + 0x100000000 * v) ≡ x * y + 0x100000000 * (x * v)
distribute x y v = grind arith

pub product_bound : (x y : ℕ) → x < 0x100000000 → y < 0x100000000 → x * y ≤ 0xffffffff * 0xffffffff
product_bound x y hx hy = mul-le-mul {n₂ = 0xffffffff} {m₂ = 0xffffffff} (omega arith) (omega arith)

-- A row adds its multiple of the right number.
value-multiply_row :
    (x carry : ℕ) (right result : List ℕ)
    → x < 0x100000000
    → carry < 0x100000000
    → IsLimbs right
    → IsLimbs result
    → length right ≤ length result
    → value result + x * value right + carry < room (length result)
    → (value (multiply_row x carry right result) ≡ value result + x * value right + carry)
      × ((length (multiply_row x carry right result) ≡ length result)
          × IsLimbs (multiply_row x carry right result))
unfolding multiply_row
value-multiply_row x carry [] result hx hc hr hs hn h =
    let zero_product : x * 0 ≡ 0 = omega arith in
    let carried = value-carry_loop carry result hc hs (omega arith) in
    (omega (arith, carried.0), carried.1)
value-multiply_row x carry (y ∷ right) [] hx hc hr hs hn h = absurd (omega arith)
value-multiply_row x carry (y ∷ right) (r ∷ result) hx hc (hy, hr) (hz, hs) hn h =
    let parts = distribute x y (value right) in
    let bound = product_bound x y hx hy in
    let rest =
      value-multiply_row x (high (u64 (x * y + r + carry))) right result hx (omega arith) hr hs
        (omega arith) (omega arith) in
    (omega (arith, rest.0), (omega (arith, rest.1.0), (omega arith, rest.1.1)))

length-higher_limbs :
    (limbs : List ℕ) {n : ℕ} → length limbs ≡ suc n → length (higher_limbs limbs) ≡ n
length-higher_limbs [] h = absurd (omega arith)
length-higher_limbs (x ∷ limbs) h = omega arith

distribute_left : (x l r : ℕ) → (x + 0x100000000 * l) * r ≡ x * r + 0x100000000 * (l * r)
distribute_left x l r = grind arith

value-multiply_rows :
    (left right result : List ℕ)
    → IsLimbs left
    → IsLimbs right
    → IsLimbs result
    → length left + length right ≤ length result
    → value result + value left * value right < room (length result)
    → (value (multiply_rows left right result) ≡ value result + value left * value right)
      × IsLimbs (multiply_rows left right result)
unfolding multiply_rows
value-multiply_rows [] right result hl hr hs hn h =
    let zero_product : 0 * value right ≡ 0 = omega arith in (omega arith, hs)
value-multiply_rows (x ∷ left) right [] (hx, hl) hr hs hn h = absurd (omega arith)
value-multiply_rows (x ∷ left) right (s ∷ result) (hx, hl) hr hs hn h =
    let parts = distribute_left x (value left) (value right) in
    let row =
      value-multiply_row x 0 right (s ∷ result) hx (omega arith) hr hs (omega arith)
        (omega arith) in
    let split = low_and_higher (multiply_row x 0 right (s ∷ result)) row.1.1 in
    let count = length-higher_limbs (multiply_row x 0 right (s ∷ result)) row.1.0 in
    let rest =
      value-multiply_rows left right (higher_limbs (multiply_row x 0 right (s ∷ result))) hl hr
        split.1.1 (omega (arith, count)) (rw count (omega (arith, row.0, split.0))) in
    (omega (arith, row.0, split.0, rest.0), (split.1.0, rest.1))

room_add : (m n : ℕ) → room (m + n) ≡ room m * room n
room_add zero n = let same : 0 + n ≡ n = omega arith in omega (arith, ap room same)
room_add (suc m) n =
    let next : suc m + n ≡ suc (m + n) = omega arith in rw (next, room_add m n) (grind arith)

product_room : (l r m n : ℕ) → l < m → r < n → l * r < m * n
product_room l r m n hl hr =
    let wider : suc l * suc r ≤ m * n = mul-le-mul hl hr in
    let expand : suc l * suc r ≡ l * r + l + r + 1 = grind arith in omega arith

pub value-zeros : (n : ℕ) → (value (replicate n 0) ≡ 0) × IsLimbs (replicate n 0)
value-zeros zero = (refl, tt)
value-zeros (suc n) = (omega (arith, (value-zeros n).0), (omega arith, (value-zeros n).1))

pub multiply_rows-product :
    (left right : List ℕ)
    → IsLimbs left
    → IsLimbs right
    → (value (multiply_rows left right (replicate (length left + length right) 0))
        ≡ value left * value right)
      × IsLimbs (multiply_rows left right (replicate (length left + length right) 0))
multiply_rows-product left right hl hr =
    let zeros = value-zeros (length left + length right) in
    let count = length-replicate {A = ℕ} (length left + length right) 0 in
    let fits : value left * value right < room (length left + length right) =
      rw (room_add (length left) (length right)) (
        product_room (value left) (value right) (room (length left)) (room (length right))
          (value-room left hl) (value-room right hr)) in
    let done =
      value-multiply_rows left right (replicate (length left + length right) 0) hl hr zeros.1
        (omega arith) (rw count (omega (arith, zeros.0, fits))) in
    (omega (arith, done.0, zeros.0), done.1)

trim-product :
    (limbs : List ℕ) {n : ℕ}
    → (value limbs ≡ n) × IsLimbs limbs
    → (value (trim limbs) ≡ n) × IsLimbs (trim limbs)
trim-product limbs (h, k) = (value-trim limbs ∙ h, trim-IsLimbs limbs k)

pub value-multiply_abs_limbs :
    (left right : List ℕ)
    → IsLimbs left
    → IsLimbs right
    → (value (multiply_abs_limbs left right) ≡ value left * value right)
      × IsLimbs (multiply_abs_limbs left right)
unfolding multiply_abs_limbs
value-multiply_abs_limbs [] right hl hr = (omega arith, tt)
value-multiply_abs_limbs (x ∷ left) [] hl hr = (omega arith, tt)
value-multiply_abs_limbs (x ∷ left) (y ∷ right) hl hr =
    let rows = multiply_rows-product (x ∷ left) (y ∷ right) hl hr in
    trim-product
      (multiply_rows (x ∷ left) (y ∷ right) (replicate (length (x ∷ left) + length (y ∷ right)) 0))
      rows
