-- ===== src/Utf8.antt =====
-- src/utils/utf8.c: validation, decoding, stepping and encoding of UTF-8.
-- A `const unsigned char*` is the list of the bytes from it on. A read behind the last byte gives
-- 0, the terminator that a C string has there.
pub mod Forms
pub mod Decode
pub mod Encode
pub mod Step
mod Tests
use list_talk.Common.{
  ℕ, zero, suc, ◌+◌, ◌*◌, ◌/◌, ◌%◌, ◌^◌, Bool, true, false, not, ◌&&◌, ◌||◌, List, [], ◌∷◌, ltb,
  leb, ◌==◌, if◌then◌else◌, get_or, length, bit_and, bit_or,
}

abbrev pub byte_at : List ℕ → ℕ → ℕ
byte_at cursor i = get_or cursor i 0

abbrev pub tail : List ℕ → List ℕ
tail [] = []
tail (b ∷ bytes) = bytes

abbrev pub replacement_codepoint : ℕ
replacement_codepoint = 0xfffd

-- `LT_utf8_is_continuation`
unfoldable pub is_continuation : ℕ → Bool
is_continuation ch = bit_and ch 0xc0 == 0x80

-- `utf8_continuation_valid`
unfoldable pub continuation_valid : ℕ → Bool
unfolding is_continuation
continuation_valid ch = not (ch == 0) && is_continuation ch

-- `utf8_codepoint_valid`
unfoldable pub codepoint_valid : ℕ → Bool
codepoint_valid codepoint =
    if ltb 0x10ffff codepoint then false else ltb codepoint 0xd800 || ltb 0xdfff codepoint

-- `LT_utf8_sequence_length`
unfoldable pub sequence_length : ℕ → ℕ
sequence_length first =
    if ltb first 0x80
    then 1
    else if leb 0xc2 first && leb first 0xdf
    then 2
    else if leb 0xe0 first && leb first 0xef
    then 3
    else if leb 0xf0 first && leb first 0xf4
    then 4
    else 0

-- The `case 3` and `case 4` of `LT_utf8_sequence_valid`.
unfoldable pub valid_three : List ℕ → Bool
unfolding continuation_valid
valid_three cursor =
    let first = byte_at cursor 0 in
    if ltb first 0xe0 || ltb 0xef first
    then false
    else if not (continuation_valid (byte_at cursor 1))
        || not (continuation_valid (byte_at cursor 2))
    then false
    else if first == 0xe0
    then leb 0xa0 (byte_at cursor 1)
    else if first == 0xed
    then leb (byte_at cursor 1) 0x9f
    else true

unfoldable pub valid_four : List ℕ → Bool
unfolding continuation_valid
valid_four cursor =
    let first = byte_at cursor 0 in
    if ltb first 0xf0 || ltb 0xf4 first
    then false
    else if not (continuation_valid (byte_at cursor 1))
        || not (continuation_valid (byte_at cursor 2))
        || not (continuation_valid (byte_at cursor 3))
    then false
    else if first == 0xf0
    then leb 0x90 (byte_at cursor 1)
    else if first == 0xf4
    then leb (byte_at cursor 1) 0x8f
    else true

-- `LT_utf8_sequence_valid`
unfoldable pub sequence_valid : List ℕ → ℕ → Bool
unfolding continuation_valid valid_three valid_four
sequence_valid cursor length =
    let first = byte_at cursor 0 in
    if length == 1
    then ltb first 0x80
    else if length == 2
    then leb 0xc2 first && leb first 0xdf && continuation_valid (byte_at cursor 1)
    else if length == 3
    then valid_three cursor
    else if length == 4
    then valid_four cursor
    else false

-- `LT_utf8_sequence_valid_bounded`
unfoldable pub sequence_valid_bounded : List ℕ → ℕ → ℕ → Bool
sequence_valid_bounded cursor available length =
    if ltb available length then false else sequence_valid cursor length

-- `LT_utf8_decode_valid`; the fields do not reach bit 21, so no shift leaves 32 bits.
unfoldable pub decode_valid : List ℕ → ℕ → ℕ
decode_valid cursor length =
    let b = byte_at cursor in
    if length == 1
    then b 0
    else if length == 2
    then bit_or (bit_and (b 0) 0x1f * 2 ^ 6) (bit_and (b 1) 0x3f)
    else if length == 3
    then bit_or (bit_or (bit_and (b 0) 0x0f * 2 ^ 12) (bit_and (b 1) 0x3f * 2 ^ 6))
        (bit_and (b 2) 0x3f)
    else if length == 4
    then bit_or
        (bit_or (bit_or (bit_and (b 0) 0x07 * 2 ^ 18) (bit_and (b 1) 0x3f * 2 ^ 12))
          (bit_and (b 2) 0x3f * 2 ^ 6))
        (bit_and (b 3) 0x3f)
    else replacement_codepoint

-- `LT_utf8_codepoint_at_bounded`
unfoldable pub codepoint_at_bounded : List ℕ → ℕ → ℕ
codepoint_at_bounded cursor available =
    let length = sequence_length (byte_at cursor 0) in
    if available == 0
    then replacement_codepoint
    else if byte_at cursor 0 == 0
    then 0
    else if length == 0 || not (sequence_valid_bounded cursor available length)
    then replacement_codepoint
    else decode_valid cursor length

-- `LT_utf8_codepoint_at`
unfoldable pub codepoint_at : List ℕ → ℕ
codepoint_at cursor =
    let length = sequence_length (byte_at cursor 0) in
    if byte_at cursor 0 == 0
    then 0
    else if length == 0 || not (sequence_valid cursor length)
    then replacement_codepoint
    else decode_valid cursor length

-- `while (offset < available && LT_utf8_is_continuation(bytes[offset])) offset++;` with fuel.
unfoldable pub skip_bounded : ℕ → List ℕ → ℕ → ℕ → ℕ
skip_bounded zero bytes available offset = offset
skip_bounded (suc fuel) bytes available offset =
    let rest = skip_bounded fuel bytes available (offset + 1) in
    if ltb offset available && is_continuation (byte_at bytes offset) then rest else offset

-- `LT_utf8_next_bounded`: how far the cursor moves. The loop ends at `available`.
unfoldable pub next_bounded : List ℕ → ℕ → ℕ
next_bounded cursor available =
    let length = sequence_length (byte_at cursor 0) in
    if available == 0
    then 0
    else if byte_at cursor 0 == 0
    then 1
    else if is_continuation (byte_at cursor 0)
    then skip_bounded available cursor available 1
    else if length == 0 || not (sequence_valid_bounded cursor available length)
    then 1
    else length

-- `do { cursor++; } while (bytes[0] != '\0' && LT_utf8_is_continuation(bytes[0]))` behind the first
-- step: how many continuation bytes follow.
unfoldable pub skip : List ℕ → ℕ
skip [] = 0
skip (b ∷ bytes) = if not (b == 0) && is_continuation b then suc (skip bytes) else 0

-- `LT_utf8_next`
unfoldable pub next : List ℕ → ℕ
next cursor =
    let length = sequence_length (byte_at cursor 0) in
    if byte_at cursor 0 == 0
    then 1
    else if is_continuation (byte_at cursor 0)
    then 1 + skip (tail cursor)
    else if length == 0 || not (sequence_valid cursor length)
    then 1
    else length

-- The bytes that `LT_utf8_encode` stores in `buffer`; their number is the result. A `(char)` cast keeps 8 bits.
abbrev pub char : ℕ → ℕ
char x = x % 256

unfoldable pub encode : ℕ → List ℕ
encode codepoint =
    if not (codepoint_valid codepoint)
    then []
    else if leb codepoint 0x7f
    then char codepoint ∷ []
    else if leb codepoint 0x7ff
    then char (bit_or 0xc0 (codepoint / 2 ^ 6)) ∷ char (bit_or 0x80 (bit_and codepoint 0x3f)) ∷ []
    else if leb codepoint 0xffff
    then char (bit_or 0xe0 (codepoint / 2 ^ 12))
      ∷ char (bit_or 0x80 (bit_and (codepoint / 2 ^ 6) 0x3f))
      ∷ char (bit_or 0x80 (bit_and codepoint 0x3f))
      ∷ []
    else char (bit_or 0xf0 (codepoint / 2 ^ 18))
      ∷ char (bit_or 0x80 (bit_and (codepoint / 2 ^ 12) 0x3f))
      ∷ char (bit_or 0x80 (bit_and (codepoint / 2 ^ 6) 0x3f))
      ∷ char (bit_or 0x80 (bit_and codepoint 0x3f))
      ∷ []
