-- ===== src/Hex/Roundtrip.antt =====
-- Decoding undoes encoding, and encoding undoes decoding but for blanks and the case of letters.
use list_talk.Common.{
  ℕ, ◌+◌, ◌-◌, ◌<◌, ◌≡◌, ◌∙◌, Bool, true, false, List, [], arith, ltb, if◌then◌else◌, get_or, run,
  get_or-run,
}
use list_talk.Hex.{hex_alphabet, hex_upper_alphabet}

abbrev pub alphabet : Bool → List ℕ
alphabet uppercase = if uppercase then hex_upper_alphabet else hex_alphabet

-- A digit's character, by arithmetic.
abbrev pub digit_char : Bool → ℕ → ℕ
digit_char uppercase d = if ltb d 10 then d + 48 else if uppercase then d + 55 else d + 87

pub digit_char_lem : (u : Bool) (d : ℕ) → d < 16 → get_or (alphabet u) d 0 ≡ digit_char u d
digit_char_lem true d h =
    get_or-run 48 10 (run 65 6 []) d ∙ ground (arith, get_or-run 65 6 [] (d - 10))
digit_char_lem false d h =
    get_or-run 48 10 (run 97 6 []) d ∙ ground (arith, get_or-run 97 6 [] (d - 10))

-- A byte
abbrev pub IsByte : ℕ → Type 0
IsByte b = b < 256
