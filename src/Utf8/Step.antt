-- ===== src/Utf8/Step.antt =====
-- The steppers always move on and stay inside the text, and a decoder never leaves Unicode.
use list_talk.Common.{
  ℕ, zero, suc, ◌+◌, ◌≤◌, ◌<◌, ◌≡◌, refl, true, false, ◌&&◌, List, arith, ltb, All, length,
  Bool-cases, inl, inr,
}
use list_talk.Utf8.{
  is_continuation, codepoint_valid, sequence_length, sequence_valid_bounded, codepoint_at_bounded,
  next_bounded, skip_bounded, byte_at,
}
use list_talk.Utf8.Decode.{IsByte}
use list_talk.Utf8.Encode.{sequence_valid-encode}

-- With fuel for the bytes that are left, the skip ends by its own test.
skip_bounded_lem :
    (fuel : ℕ) (bytes : List ℕ) (available offset : ℕ)
    → offset ≤ available
    → available ≤ offset + fuel
    → (offset ≤ skip_bounded fuel bytes available offset)
      × (skip_bounded fuel bytes available offset ≤ available)
      × (skip_bounded fuel bytes available offset < available
          → is_continuation (byte_at bytes (skip_bounded fuel bytes available offset)) ≡ false)
unfolding skip_bounded
skip_bounded_lem zero bytes available offset lo hi =
    (omega arith, omega arith, λ h. absurd (omega arith))
skip_bounded_lem (suc fuel) bytes available offset lo hi =
    elim (Bool-cases (ltb offset available && is_continuation (byte_at bytes offset))) [
      | inl more ↦
          let (a, b, c) =
            skip_bounded_lem fuel bytes available (offset + 1) (ground arith) (omega arith) in
          rw more (omega arith, b, c)
      | inr stop ↦ rw stop (omega arith, omega arith, λ h. ground arith)
    ]

-- In a text with bytes left, `LT_utf8_next_bounded` moves on by a byte at least and not behind the
-- end, whatever the bytes are, so a loop over a text ends.
pub next_bounded_progress :
    (cursor : List ℕ) (available : ℕ)
    → 0 < available
    → (1 ≤ next_bounded cursor available) × (next_bounded cursor available ≤ available)
unfolding next_bounded sequence_valid_bounded
next_bounded_progress cursor available pos =
    ground (arith, skip_bounded_lem available cursor available 1)

-- On any bytes `LT_utf8_codepoint_at_bounded` gives a valid codepoint.
pub codepoint_at_bounded_valid :
    (cursor : List ℕ) (available : ℕ)
    → All IsByte cursor
    → available ≤ length cursor
    → codepoint_valid (codepoint_at_bounded cursor available) ≡ true
unfolding codepoint_at_bounded sequence_valid_bounded
codepoint_at_bounded_valid cursor available bs le =
    let n = sequence_length (byte_at cursor 0) in
    ground (arith, replacement_codepoint_valid, zero_valid, sequence_valid-encode cursor n bs)
  where
    replacement_codepoint_valid : codepoint_valid 0xfffd ≡ true
    replacement_codepoint_valid = unfold codepoint_valid in refl

    zero_valid : codepoint_valid 0 ≡ true
    zero_valid = unfold codepoint_valid in refl
