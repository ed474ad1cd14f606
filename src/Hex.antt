-- ===== src/Hex.antt =====
-- src/utils/hex.c: hexadecimal text of bytes and back. `none` is an `LT_error`.
pub mod Roundtrip
pub mod Canonical
mod Tests
use list_talk.Common.{
  ℕ, zero, suc, ◌+◌, ◌-◌, ◌*◌, ◌/◌, ◌%◌, ◌^◌, Bool, true, false, not, ◌&&◌, ◌||◌, Option, none,
  some, List, [], ◌∷◌, ltb, leb, ◌==◌, if◌then◌else◌, get_or, length, bit_and, bit_or,
}

abbrev pub size_max : ℕ
size_max = 2 ^ 64 - 1

-- `"0123456789abcdef"` and `"0123456789ABCDEF"`
abbrev pub hex_alphabet : List ℕ
hex_alphabet = 48 ∷ 49 ∷ 50 ∷ 51 ∷ 52 ∷ 53 ∷ 54 ∷ 55 ∷ 56 ∷ 57 ∷ 97 ∷ 98 ∷ 99 ∷ 100 ∷ 101 ∷ 102 ∷ []

abbrev pub hex_upper_alphabet : List ℕ
hex_upper_alphabet =
    48 ∷ 49 ∷ 50 ∷ 51 ∷ 52 ∷ 53 ∷ 54 ∷ 55 ∷ 56 ∷ 57 ∷ 65 ∷ 66 ∷ 67 ∷ 68 ∷ 69 ∷ 70 ∷ []

-- `ascii_whitespace_p`: space, tab, line feed, carriage return, form feed and vertical tab
unfoldable pub ascii_whitespace_p : ℕ → Bool
ascii_whitespace_p ch = ch == 32 || ch == 9 || ch == 10 || ch == 13 || ch == 12 || ch == 11

-- `hex_decode_char`; `none` is -1.
unfoldable pub hex_decode_char : ℕ → Option ℕ
hex_decode_char ch =
    if leb 48 ch && leb ch 57
    then some (ch - 48)
    else if leb 97 ch && leb ch 102
    then some (ch - 97 + 10)
    else if leb 65 ch && leb ch 70
    then some (ch - 65 + 10)
    else none

-- The loop of `LT_hex_encode`: two characters for each byte.
unfoldable pub encode_bytes : List ℕ → List ℕ → List ℕ
encode_bytes alphabet [] = []
encode_bytes alphabet (byte ∷ bytes) =
    get_or alphabet (byte / 2 ^ 4) 0
    ∷ get_or alphabet (bit_and byte 0x0f) 0
    ∷ encode_bytes alphabet bytes

-- `LT_hex_encode`
unfoldable pub encode : List ℕ → Bool → Option (List ℕ)
unfolding encode_bytes
encode bytes uppercase =
    if ltb ((size_max - 1) / 2) (length bytes)
    then none
    else some (encode_bytes (if uppercase then hex_upper_alphabet else hex_alphabet) bytes)

-- The first loop of `LT_hex_decode`: the characters that are not blank.
unfoldable pub compact : List ℕ → List ℕ
compact [] = []
compact (ch ∷ string) = if not (ascii_whitespace_p ch) then ch ∷ compact string else compact string

-- Its second loop: a byte for each two characters. The parity test comes before it, so that no
-- character is left over.
abbrev pub joined : Option ℕ → Option ℕ → Option (List ℕ) → Option (List ℕ)
joined (some high) (some low) (some bytes) = some (bit_or (high * 2 ^ 4) low % 256 ∷ bytes)
joined (some high) (some low) none = none
joined (some high) none rest = none
joined none low rest = none

unfoldable pub decode_pairs : List ℕ → Option (List ℕ)
decode_pairs [] = some []
decode_pairs (c ∷ []) = some []
decode_pairs (c ∷ d ∷ compacted) =
    joined (hex_decode_char c) (hex_decode_char d) (decode_pairs compacted)

-- `LT_hex_decode`
unfoldable pub decode : List ℕ → Option (List ℕ)
unfolding compact decode_pairs
decode string =
    let compacted = compact string in
    if not (length compacted % 2 == 0) then none else decode_pairs compacted
