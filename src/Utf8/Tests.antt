-- ===== src/Utf8/Tests.antt =====
-- Runs of the UTF-8 functions, and the theorems at concrete inputs.
use list_talk.Common.{◌≤◌, ◌≡◌, refl, true, [], ◌∷◌, arith}
use list_talk.Utf8.{
  is_continuation, continuation_valid, codepoint_valid, sequence_length, sequence_valid,
  sequence_valid_bounded, decode_valid, codepoint_at_bounded, next_bounded, skip_bounded,
  codepoint_at, next, skip, encode,
}
use list_talk.Utf8.Encode.{Reads, encode-Reads, sequence_valid-encode}
use list_talk.Utf8.Step.{next_bounded_progress, codepoint_at_bounded_valid}

functions : Unit {0}
unfolding is_continuation continuation_valid codepoint_valid sequence_length sequence_valid
    sequence_valid_bounded decode_valid codepoint_at_bounded next_bounded skip_bounded codepoint_at
    next skip encode
functions = tt

-- U+20AC, the euro sign
euro : encode 0x20ac ≡ 0xe2 ∷ 0x82 ∷ 0xac ∷ []
unfolding functions
euro = refl

surrogate : encode 0xd800 ≡ []
unfolding functions
surrogate = refl

-- An overlong form of `/` is refused and stepped over byte by byte.
overlong : codepoint_at_bounded (0xc0 ∷ 0xaf ∷ []) 2 ≡ 0xfffd
unfolding functions
overlong = refl

cut_short : codepoint_at_bounded (0xe2 ∷ 0x82 ∷ 0xac ∷ []) 2 ≡ 0xfffd
unfolding functions
cut_short = refl

inside : next_bounded (0x82 ∷ 0xac ∷ 0x41 ∷ []) 3 ≡ 2
unfolding functions
inside = refl

inside_c_string : next (0x82 ∷ 0xac ∷ 0x41 ∷ []) ≡ 2
unfolding functions
inside_c_string = refl

encode-Reads_example : Reads (0xe2 ∷ 0x82 ∷ 0xac ∷ 0x41 ∷ []) 3 0x20ac
unfolding functions
encode-Reads_example = encode-Reads 0x20ac (0x41 ∷ []) refl

sequence_valid-encode_example :
    (codepoint_valid 0x1f600 ≡ true) × (encode 0x1f600 ≡ 0xf0 ∷ 0x9f ∷ 0x98 ∷ 0x80 ∷ [])
unfolding functions
sequence_valid-encode_example =
    sequence_valid-encode (0xf0 ∷ 0x9f ∷ 0x98 ∷ 0x80 ∷ []) 4 (omega arith) (omega arith) refl

next_bounded_progress_example :
    (1 ≤ next_bounded (0x82 ∷ 0xac ∷ 0x41 ∷ []) 3) × (next_bounded (0x82 ∷ 0xac ∷ 0x41 ∷ []) 3 ≤ 3)
next_bounded_progress_example = next_bounded_progress (0x82 ∷ 0xac ∷ 0x41 ∷ []) 3 (omega arith)

codepoint_at_bounded_valid_example :
    codepoint_valid (codepoint_at_bounded (0xed ∷ 0xa0 ∷ 0x80 ∷ []) 3) ≡ true
codepoint_at_bounded_valid_example =
    codepoint_at_bounded_valid (0xed ∷ 0xa0 ∷ 0x80 ∷ []) 3 (omega arith) (omega arith)
