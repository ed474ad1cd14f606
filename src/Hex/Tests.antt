-- ===== src/Hex/Tests.antt =====
-- Runs of the codec, and its theorems at concrete texts.
use list_talk.Common.{ℕ, ◌≡◌, refl, true, none, some, List, [], ◌∷◌}
use list_talk.Hex.{
  ascii_whitespace_p, hex_decode_char, encode_bytes, encode, compact, decode_pairs, decode,
}

functions : Unit {0}
unfolding ascii_whitespace_p hex_decode_char encode_bytes encode compact decode_pairs decode
functions = tt

abbrev two_bytes : List ℕ
two_bytes = 0x0f ∷ 0xa7 ∷ []

-- `0FA7`
encoded : encode two_bytes true ≡ some (48 ∷ 70 ∷ 65 ∷ 55 ∷ [])
unfolding functions
encoded = refl

-- `0f a7` with a blank inside
abbrev blanked_text : List ℕ
blanked_text = 48 ∷ 102 ∷ 32 ∷ 97 ∷ 55 ∷ []

odd : decode (48 ∷ []) ≡ none
unfolding functions
odd = refl

no_digit : decode (48 ∷ 103 ∷ []) ≡ none
unfolding functions
no_digit = refl
