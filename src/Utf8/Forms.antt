-- ===== src/Utf8/Forms.antt =====
-- The bit operations of the decoder and the encoder as arithmetic.
use list_talk.Common.{
  ℕ, ◌+◌, ◌*◌, ◌/◌, ◌%◌, ◌^◌, ◌≤◌, ◌<◌, ◌≡◌, ap, ◌∙◌, ◌↔◌, true, ◌&&◌, List, [], ◌∷◌, arith, ltb,
  leb, ◌⊎◌, inl, inr, Bool-cases, bit_and, bit_or,
}
use list_talk.Common.Bits.{
  bit_and_digit, bit_and_3, bit_and_7, bit_and_15, bit_and_31, bit_and_63, bit_or_fields,
}
use list_talk.Utf8.{
  is_continuation, continuation_valid, decode_valid, encode, codepoint_valid, char,
}

top_bits : (b : ℕ) → b < 256 → bit_and b 0xc0 ≡ b / 64 * 64
top_bits b h = omega (
  arith,
  bit_and_digit b 0xc0,
  bit_and_digit (b / 2) 0x60,
  bit_and_digit (b / 2 / 2) 0x30,
  bit_and_digit (b / 2 / 2 / 2) 0x18,
  bit_and_digit (b / 2 / 2 / 2 / 2) 0xc,
  bit_and_digit (b / 2 / 2 / 2 / 2 / 2) 6,
  bit_and_3 (b / 2 / 2 / 2 / 2 / 2 / 2),
)

pub continuation_lem : (b : ℕ) → b < 256 → is_continuation b ≡ (leb 0x80 b && leb b 0xbf)
unfolding is_continuation
continuation_lem b h = ground (arith, top_bits b h)

pub continuation_valid_lem : (b : ℕ) → b < 256 → continuation_valid b ≡ (leb 0x80 b && leb b 0xbf)
unfolding continuation_valid
continuation_valid_lem b h = rw (continuation_lem b h) (ground arith)

joined_two : (q l : ℕ) → l < 64 → bit_or (q * 2 ^ 6) l ≡ q * 64 + l
joined_two q l h = bit_or_fields 6 q l h

joined_three :
    (q m l : ℕ)
    → m < 64
    → l < 64
    → bit_or (bit_or (q * 2 ^ 12) (m * 2 ^ 6)) l ≡ q * 4096 + m * 64 + l
joined_three q m l hm hl =
    let high : bit_or (q * 2 ^ 12) (m * 2 ^ 6) ≡ (q * 64 + m) * 2 ^ 6 =
      omega (arith, bit_or_fields 12 q (m * 2 ^ 6) (omega arith)) in
    ap (λ t. bit_or t l) high ∙ omega (arith, joined_two (q * 64 + m) l hl)

joined_four :
    (q m l k : ℕ)
    → m < 64
    → l < 64
    → k < 64
    → bit_or (bit_or (bit_or (q * 2 ^ 18) (m * 2 ^ 12)) (l * 2 ^ 6)) k
      ≡ q * 262144 + m * 4096 + l * 64 + k
joined_four q m l k hm hl hk =
    let high : bit_or (q * 2 ^ 18) (m * 2 ^ 12) ≡ (q * 64 + m) * 2 ^ 12 =
      omega (arith, bit_or_fields 18 q (m * 2 ^ 12) (omega arith)) in
    ap (λ t. bit_or (bit_or t (l * 2 ^ 6)) k) high
    ∙ omega (arith, joined_three (q * 64 + m) l k hl hk)

pub decode_two : (a b : ℕ) (rest : List ℕ) → decode_valid (a ∷ b ∷ rest) 2 ≡ a % 32 * 64 + b % 64
unfolding decode_valid
decode_two a b rest = rw (bit_and_31 a, bit_and_63 b) (joined_two (a % 32) (b % 64) (omega arith))

pub decode_three :
    (a b c : ℕ) (rest : List ℕ)
    → decode_valid (a ∷ b ∷ c ∷ rest) 3 ≡ a % 16 * 4096 + b % 64 * 64 + c % 64
unfolding decode_valid
decode_three a b c rest =
    rw (bit_and_15 a, bit_and_63 b, bit_and_63 c)
      (joined_three (a % 16) (b % 64) (c % 64) (omega arith) (omega arith))

pub decode_four :
    (a b c d : ℕ) (rest : List ℕ)
    → decode_valid (a ∷ b ∷ c ∷ d ∷ rest) 4 ≡ a % 8 * 262144 + b % 64 * 4096 + c % 64 * 64 + d % 64
unfolding decode_valid
decode_four a b c d rest =
    rw (bit_and_7 a, bit_and_63 b, bit_and_63 c, bit_and_63 d)
      (joined_four (a % 8) (b % 64) (c % 64) (d % 64) (omega arith) (omega arith) (omega arith))

-- The bytes of each length, in plain arithmetic.
abbrev pub two_bytes : ℕ → List ℕ
two_bytes x = (192 + x / 64) ∷ (128 + x % 64) ∷ []

abbrev pub three_bytes : ℕ → List ℕ
three_bytes x = (224 + x / 4096) ∷ (128 + x / 64 % 64) ∷ (128 + x % 64) ∷ []

abbrev pub four_bytes : ℕ → List ℕ
four_bytes x =
    (240 + x / 262144) ∷ (128 + x / 4096 % 64) ∷ (128 + x / 64 % 64) ∷ (128 + x % 64) ∷ []

cont : (x : ℕ) → char (bit_or 0x80 (bit_and x 0x3f)) ≡ 128 + x % 64
cont x = rw (bit_and_63 x) (omega (arith, bit_or_fields 6 2 (x % 64) (omega arith)))

lead_two : (x : ℕ) → x < 32 → char (bit_or 0xc0 x) ≡ 192 + x
lead_two x h = omega (arith, bit_or_fields 5 6 x h)

lead_three : (x : ℕ) → x < 16 → char (bit_or 0xe0 x) ≡ 224 + x
lead_three x h = omega (arith, bit_or_fields 4 14 x h)

lead_four : (x : ℕ) → x < 8 → char (bit_or 0xf0 x) ≡ 240 + x
lead_four x h = omega (arith, bit_or_fields 3 30 x h)

-- A Unicode scalar value: what `utf8_codepoint_valid` accepts.
abbrev pub IsScalar : ℕ → Type 0
IsScalar x = (x < 0xd800) ⊎ ((0xdfff < x) × (x ≤ 0x10ffff))

pub codepoint_valid_iff : (x : ℕ) → (codepoint_valid x ≡ true) ↔ IsScalar x
unfolding codepoint_valid
codepoint_valid_iff x = ground arith

-- What the encoder writes for a scalar value, by its size.
pub data Encoded (x : ℕ) : Type 0 where
  one : x < 0x80 → encode x ≡ x ∷ [] → Encoded x
  two : 0x80 ≤ x → x < 0x800 → encode x ≡ two_bytes x → Encoded x
  three : 0x800 ≤ x → x < 0x10000 → IsScalar x → encode x ≡ three_bytes x → Encoded x
  four : 0x10000 ≤ x → x ≤ 0x10ffff → encode x ≡ four_bytes x → Encoded x

module _ (x : ℕ) (h : IsScalar x) where
  pub encode_two : 0x80 ≤ x → x < 0x800 → encode x ≡ two_bytes x
  unfolding encode codepoint_valid
  encode_two lo hi = ground (arith, cont x, lead_two (x / 2 ^ 6))

  pub encode_three : 0x800 ≤ x → x < 0x10000 → encode x ≡ three_bytes x
  unfolding encode codepoint_valid
  encode_three lo hi = ground (arith, cont x, cont (x / 2 ^ 6), lead_three (x / 2 ^ 12))

  pub encode_four : 0x10000 ≤ x → encode x ≡ four_bytes x
  unfolding encode codepoint_valid
  encode_four lo =
      ground (arith, cont x, cont (x / 2 ^ 6), cont (x / 2 ^ 12), lead_four (x / 2 ^ 18))

  pub encode_one : x < 0x80 → encode x ≡ x ∷ []
  unfolding encode codepoint_valid
  encode_one hi = ground arith

  pub encoded : Encoded x
  encoded = elim (Bool-cases (ltb x 0x80)) [
    | inl a ↦ one (ground arith) (encode_one (ground arith))
    | inr a ↦ elim (Bool-cases (ltb x 0x800)) [
      | inl b ↦ two (ground arith) (ground arith) (encode_two (ground arith) (ground arith))
      | inr b ↦ elim (Bool-cases (ltb x 0x10000)) [
        | inl c ↦ three (ground arith) (ground arith) h (encode_three (ground arith) (ground arith))
        | inr c ↦ four (ground arith) (ground arith) (encode_four (ground arith))
      ]
    ]
  ]
