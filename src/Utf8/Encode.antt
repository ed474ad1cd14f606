-- ===== src/Utf8/Encode.antt =====
-- The encoder and the decoder undo one another, and stepping makes progress.
use list_talk.Common.{
  ℕ, zero, suc, ◌+◌, ◌*◌, ◌/◌, ◌%◌, ◌≤◌, ◌<◌, ◌≡◌, ◌∙◌, inl, inr, true, List, [], ◌∷◌, ◌++◌, arith,
  All, length, take,
}
use mathlib.Core.Path.{subst}
use list_talk.Utf8.{
  codepoint_valid, sequence_length, sequence_valid, sequence_valid_bounded, decode_valid,
  codepoint_at_bounded, next_bounded, byte_at, codepoint_at, next, encode,
}
use list_talk.Utf8.Forms.{
  continuation_lem, decode_two, decode_three, decode_four, Encoded, one, two, three, four, encoded,
  IsScalar, encode_one, encode_two, encode_three, encode_four, codepoint_valid_iff, two_bytes,
  three_bytes, four_bytes,
}
use list_talk.Utf8.Decode.{IsByte, Two, Three, Four, valid-Two_iff, valid-Three_iff, valid-Four_iff}

-- What the decoder and the stepper do at the front of `cursor`, of which `n` bytes or more are
-- available: they read `x` in `n` bytes.
pub record Reads (cursor : List ℕ) (n x : ℕ) : Type 0 where
  pub bounded : (available : ℕ) → n ≤ available → codepoint_at_bounded cursor available ≡ x
  pub unbounded : codepoint_at cursor ≡ x
  pub steps_bounded : (available : ℕ) → n ≤ available → next_bounded cursor available ≡ n
  pub steps : next cursor ≡ n

Reads-one : (x : ℕ) (rest : List ℕ) → x < 128 → Reads (x ∷ rest) 1 x
unfolding codepoint_at_bounded codepoint_at next_bounded next sequence_valid_bounded sequence_valid
    sequence_length decode_valid
Reads-one x rest h = record {
  bounded = λ available le. ground arith;
  unbounded = ground arith;
  steps_bounded = λ available le. ground (arith, continuation_lem x);
  steps = ground (arith, continuation_lem x);
}

-- Behind the first byte, the readers go by the length and the validity of the front.
Reads-valid :
    (cursor : List ℕ) (n x : ℕ)
    → byte_at cursor 0 < 256
    → 0xc0 ≤ byte_at cursor 0
    → 0 < n
    → sequence_length (byte_at cursor 0) ≡ n
    → sequence_valid cursor n ≡ true
    → decode_valid cursor n ≡ x
    → Reads cursor n x
unfolding codepoint_at_bounded codepoint_at next_bounded next sequence_valid_bounded
Reads-valid cursor n x h big pos len valid dec = record {
  bounded = λ available le. ground arith;
  unbounded = ground arith;
  steps_bounded = λ available le. ground (arith, continuation_lem (byte_at cursor 0));
  steps = ground (arith, continuation_lem (byte_at cursor 0));
}

Reads-Two : (a b : ℕ) (rest : List ℕ) → Two a b → Reads (a ∷ b ∷ rest) 2 (a % 32 * 64 + b % 64)
Reads-Two a b rest t =
    Reads-valid (a ∷ b ∷ rest) 2 _ (omega arith) (omega arith) (omega arith)
      (unfold sequence_length in ground arith) ((valid-Two_iff rest a b (omega arith)).1 t)
      (decode_two a b rest)

Reads-Three :
    (a b c : ℕ) (rest : List ℕ)
    → Three a b c
    → Reads (a ∷ b ∷ c ∷ rest) 3 (a % 16 * 4096 + b % 64 * 64 + c % 64)
Reads-Three a b c rest t =
    Reads-valid (a ∷ b ∷ c ∷ rest) 3 _ (omega arith) (omega arith) (omega arith)
      (unfold sequence_length in ground arith)
      ((valid-Three_iff rest a b c (omega arith) (omega arith)).1 t) (decode_three a b c rest)

Reads-Four :
    (a b c d : ℕ) (rest : List ℕ)
    → Four a b c d
    → Reads (a ∷ b ∷ c ∷ d ∷ rest) 4 (a % 8 * 262144 + b % 64 * 4096 + c % 64 * 64 + d % 64)
Reads-Four a b c d rest t =
    Reads-valid (a ∷ b ∷ c ∷ d ∷ rest) 4 _ (omega arith) (omega arith) (omega arith)
      (unfold sequence_length in ground arith)
      ((valid-Four_iff rest a b c d (omega arith) (omega arith) (omega arith)).1 t)
      (decode_four a b c d rest)

Reads-as : (cursor : List ℕ) (n : ℕ) {x y : ℕ} → y ≡ x → Reads cursor n y → Reads cursor n x
Reads-as cursor n e r = subst (Reads cursor n) e r

encoded-Reads : (x : ℕ) (rest : List ℕ) → Encoded x → Reads (encode x ++ rest) (length (encode x)) x
encoded-Reads x rest (one hi e) = rw e (Reads-one x rest hi)
encoded-Reads x rest (two lo hi e) =
    rw e (Reads-as _ 2 (omega arith) (Reads-Two (192 + x / 64) (128 + x % 64) rest (omega arith)))
encoded-Reads x rest (three lo hi s e) = rw e (
    Reads-as _ 3 (omega arith)
      (Reads-Three (224 + x / 4096) (128 + x / 64 % 64) (128 + x % 64) rest (ground arith)))
encoded-Reads x rest (four lo hi e) = rw e (
    Reads-as _ 4 (omega arith) (
      Reads-Four (240 + x / 262144) (128 + x / 4096 % 64) (128 + x / 64 % 64) (128 + x % 64) rest
        (omega arith)))

-- Decoding undoes encoding: at the front of the bytes that `LT_utf8_encode` wrote for a valid
-- codepoint, whatever follows them, both readers give the codepoint back, and both steppers move
-- over exactly these bytes; the bounded ones do so when all the bytes are available.
pub encode-Reads :
    (x : ℕ) (rest : List ℕ)
    → codepoint_valid x ≡ true
    → Reads (encode x ++ rest) (length (encode x)) x
encode-Reads x rest h = encoded-Reads x rest (encoded x ((codepoint_valid_iff x).0 h))

-- The number `y` that a sequence decodes to is written as this sequence.
module _ (y : ℕ) where
  back :
      (bytes : List ℕ)
      → IsScalar y
      → encode y ≡ bytes
      → (codepoint_valid y ≡ true) × (encode y ≡ bytes)
  back bytes s e = ((codepoint_valid_iff y).1 s, e)

  back-Two :
      (a b : ℕ)
      → Two a b
      → y ≡ a % 32 * 64 + b % 64
      → (codepoint_valid y ≡ true) × (encode y ≡ a ∷ b ∷ [])
  back-Two a b t e =
      let s : IsScalar y = inl (omega arith) in
      back (a ∷ b ∷ []) s (encode_two y s (omega arith) (omega arith) ∙ same)
    where
      same : two_bytes y ≡ a ∷ b ∷ []
      same = ground arith

  back-Three :
      (a b c : ℕ)
      → Three a b c
      → y ≡ a % 16 * 4096 + b % 64 * 64 + c % 64
      → (codepoint_valid y ≡ true) × (encode y ≡ a ∷ b ∷ c ∷ [])
  back-Three a b c t e =
      let s : IsScalar y = grind arith in
      back (a ∷ b ∷ c ∷ []) s (encode_three y s (grind arith) (omega arith) ∙ same)
    where
      same : three_bytes y ≡ a ∷ b ∷ c ∷ []
      same = ground arith

  back-Four :
      (a b c d : ℕ)
      → Four a b c d
      → y ≡ a % 8 * 262144 + b % 64 * 4096 + c % 64 * 64 + d % 64
      → (codepoint_valid y ≡ true) × (encode y ≡ a ∷ b ∷ c ∷ d ∷ [])
  back-Four a b c d t e =
      let s : IsScalar y = inr (grind arith, grind arith) in
      back (a ∷ b ∷ c ∷ d ∷ []) s (encode_four y s (grind arith) ∙ same)
    where
      same : four_bytes y ≡ a ∷ b ∷ c ∷ d ∷ []
      same = ground arith

-- Encoding undoes decoding: a sequence that `LT_utf8_sequence_valid` accepts decodes to a valid
-- codepoint whose encoding is this very sequence, so no codepoint has a second, overlong form.
pub sequence_valid-encode :
    (cursor : List ℕ) (n : ℕ)
    → All IsByte cursor
    → n ≤ length cursor
    → sequence_valid cursor n ≡ true
    → (codepoint_valid (decode_valid cursor n) ≡ true)
      × (encode (decode_valid cursor n) ≡ take n cursor)
sequence_valid-encode (a ∷ r) (suc zero) bs le v =
    unfold sequence_valid decode_valid in
    (
      (codepoint_valid_iff a).1 (inl (ground arith)),
      encode_one a (inl (ground arith)) (ground arith),
    )
sequence_valid-encode (a ∷ b ∷ r) (suc (suc zero)) bs le v =
    back-Two _ a b ((valid-Two_iff r a b (omega arith)).0 v) (decode_two a b r)
sequence_valid-encode (a ∷ b ∷ c ∷ r) (suc (suc (suc zero))) bs le v =
    back-Three _ a b c ((valid-Three_iff r a b c (omega arith) (omega arith)).0 v)
      (decode_three a b c r)
sequence_valid-encode (a ∷ b ∷ c ∷ d ∷ r) (suc (suc (suc (suc zero)))) bs le v =
    back-Four _ a b c d ((valid-Four_iff r a b c d (omega arith) (omega arith) (omega arith)).0 v)
      (decode_four a b c d r)
sequence_valid-encode cursor zero bs le v = unfold sequence_valid in cc
sequence_valid-encode cursor (suc (suc (suc (suc (suc n))))) bs le v =
    unfold sequence_valid in absurd (ground arith)
sequence_valid-encode cursor n bs le v = absurd (omega arith)
