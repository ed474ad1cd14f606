-- ===== src/Utf8/Decode.antt =====
-- Which byte sequences the decoder accepts.
use list_talk.Common.{ℕ, ◌≤◌, ◌<◌, ◌≡◌, ◌↔◌, true, List, ◌∷◌, arith}
use list_talk.Utf8.{sequence_valid}
use list_talk.Utf8.Forms.{continuation_valid_lem}

abbrev pub IsByte : ℕ → Type 0
IsByte b = b < 256

abbrev IsTail : ℕ → Type 0
IsTail b = (0x80 ≤ b) × (b ≤ 0xbf)

-- The byte ranges of a well-formed sequence of each length (Unicode, table 3-7).
abbrev pub Two : ℕ → ℕ → Type 0
Two a b = (0xc2 ≤ a) × (a ≤ 0xdf) × IsTail b

abbrev pub Three : ℕ → ℕ → ℕ → Type 0
Three a b c =
    (0xe0 ≤ a) × (a ≤ 0xef) × IsTail b × IsTail c × (a ≡ 0xe0 → 0xa0 ≤ b) × (a ≡ 0xed → b ≤ 0x9f)

abbrev pub Four : ℕ → ℕ → ℕ → ℕ → Type 0
Four a b c d =
    (0xf0 ≤ a)
    × (a ≤ 0xf4)
    × IsTail b
    × IsTail c
    × IsTail d
    × (a ≡ 0xf0 → 0x90 ≤ b)
    × (a ≡ 0xf4 → b ≤ 0x8f)

module _ (rest : List ℕ) where
  pub valid-Two_iff : (a b : ℕ) → IsByte b → (sequence_valid (a ∷ b ∷ rest) 2 ≡ true) ↔ Two a b
  unfolding sequence_valid
  valid-Two_iff a b hb = rw (continuation_valid_lem b hb) (ground arith)

  pub valid-Three_iff :
      (a b c : ℕ) → IsByte b → IsByte c → (sequence_valid (a ∷ b ∷ c ∷ rest) 3 ≡ true) ↔ Three a b c
  unfolding sequence_valid
  valid-Three_iff a b c hb hc =
      rw (continuation_valid_lem b hb, continuation_valid_lem c hc) (ground arith)

  pub valid-Four_iff :
      (a b c d : ℕ)
      → IsByte b
      → IsByte c
      → IsByte d
      → (sequence_valid (a ∷ b ∷ c ∷ d ∷ rest) 4 ≡ true) ↔ Four a b c d
  unfolding sequence_valid
  valid-Four_iff a b c d hb hc hd =
      rw (continuation_valid_lem b hb, continuation_valid_lem c hc, continuation_valid_lem d hd)
        (ground arith)
