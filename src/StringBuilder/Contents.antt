-- ===== src/StringBuilder/Contents.antt =====
-- The text of a builder, and what the operations append to it.
use list_talk.Common.{
  ℕ, zero, suc, ◌+◌, ◌*◌, ◌≤◌, ◌<◌, ◌≡◌, refl, ap, sym, ◌∙◌, List, [], ◌∷◌, ◌++◌, arith, ltb,
  length, length-set, get_or, get_or-set, set, take, Bool-cases, inl, inr,
}
use mathlib.Core.List.{append_assoc, append-nil}
use list_talk.StringBuilder.{
  StringBuilder, copy, enlarge, new, moved, store, append_bytes, append_char, append_str,
}

length-copy : (buf : List ℕ) (o : ℕ) (bytes : List ℕ) → length (copy buf o bytes) ≡ length buf
unfolding copy
length-copy [] o bytes = refl
length-copy (b ∷ buf) zero [] = refl
length-copy (b ∷ buf) zero (c ∷ bytes) = ap suc (length-copy buf zero bytes)
length-copy (b ∷ buf) (suc o) bytes = ap suc (length-copy buf o bytes)

take-copy :
    (buf : List ℕ) (o n : ℕ) (bytes : List ℕ)
    → n ≡ o + length bytes
    → n ≤ length buf
    → take n (copy buf o bytes) ≡ take o buf ++ bytes
unfolding copy
take-copy [] zero zero [] e h = refl
take-copy [] (suc o) zero bytes e h = absurd (omega arith)
take-copy [] zero zero (c ∷ bytes) e h = absurd (omega arith)
take-copy [] o (suc n) bytes e h = absurd (omega arith)
take-copy (b ∷ buf) zero zero [] e h = refl
take-copy (b ∷ buf) zero (suc n) [] e h = absurd (omega arith)
take-copy (b ∷ buf) zero zero (c ∷ bytes) e h = absurd (omega arith)
take-copy (b ∷ buf) zero (suc n) (c ∷ bytes) e h =
    ap (λ t. c ∷ t) (take-copy buf zero n bytes (omega arith) (omega arith))
take-copy (b ∷ buf) (suc o) zero bytes e h = absurd (omega arith)
take-copy (b ∷ buf) (suc o) (suc n) bytes e h =
    ap (λ t. b ∷ t) (take-copy buf o n bytes (omega arith) (omega arith))

take-set : (xs : List ℕ) (n i v : ℕ) → n ≤ i → take n (set xs i v) ≡ take n xs
take-set [] n i v h = refl
take-set (x ∷ xs) zero i v h = refl
take-set (x ∷ xs) (suc n) zero v h = absurd (omega arith)
take-set (x ∷ xs) (suc n) (suc i) v h = ap (λ t. x ∷ t) (take-set xs n i v (omega arith))

take_one :
    (xs : List ℕ) (n v : ℕ) → n < length xs → take (n + 1) (set xs n v) ≡ take n xs ++ (v ∷ [])
take_one xs n v h =
    let e : n + 1 ≡ suc n = omega arith in ap (λ k. take k (set xs n v)) e ∙ go xs n h
  where
    go : (xs : List ℕ) (n : ℕ) → n < length xs → take (suc n) (set xs n v) ≡ take n xs ++ (v ∷ [])
    go [] n h = absurd (omega arith)
    go (x ∷ xs) zero h = refl
    go (x ∷ xs) (suc n) h = ap (λ t. x ∷ t) (go xs n (omega arith))

take-take : (xs : List ℕ) (n m : ℕ) → n ≤ m → take n (take m xs) ≡ take n xs
take-take xs zero m h = refl
take-take xs (suc n) zero h = absurd (omega arith)
take-take [] (suc n) (suc m) h = refl
take-take (x ∷ xs) (suc n) (suc m) h = ap (λ t. x ∷ t) (take-take xs n m (omega arith))

length-take : (xs : List ℕ) (n : ℕ) → n ≤ length xs → length (take n xs) ≡ n
length-take xs zero h = refl
length-take [] (suc n) h = absurd (omega arith)
length-take (x ∷ xs) (suc n) h = ap suc (length-take xs n (omega arith))

-- The loop ends by its test when there is a round for each missing byte.
enlarge_enough : (fuel n r : ℕ) → r ≤ n + fuel → r ≤ enlarge fuel n r
unfolding enlarge
enlarge_enough zero n r h = omega arith
enlarge_enough (suc fuel) n r h = ground (arith, enlarge_enough fuel (n * 2 + 2) r)

-- The buffer has its size, and room for the terminator, which stands behind the text.
pub record IsValid (b : StringBuilder) : Type 0 where
  pub width : length b.buf ≡ b.size
  pub room : b.length < b.size
  pub terminated : get_or b.buf b.length 1 ≡ 0

abbrev pub contents : StringBuilder → List ℕ
contents b = take b.length b.buf

-- After an operation the builder is well formed, and has this text.
pub record Holds (b : StringBuilder) (text : List ℕ) : Type 0 where
  pub valid : IsValid b
  pub held : contents b ≡ text

set_get : (xs : List ℕ) (i v d : ℕ) → i < length xs → get_or (set xs i v) i d ≡ v
set_get xs i v d h = get_or-set xs i i v d ∙ ground arith

module _ (malloc : ℕ → List ℕ) (malloc_size : (n : ℕ) → length (malloc n) ≡ n) where
  new-Holds : Holds (new malloc) []
  unfolding new
  new-Holds = record {
    valid = record {
      width = length-set (malloc 64) 0 0 ∙ malloc_size 64;
      room = omega arith;
      terminated = set_get (malloc 64) 0 0 1 (omega (arith, malloc_size 64));
    };
    held = refl;
  }

  module _ (b : StringBuilder) (text : List ℕ) (len : length b.buf ≡ b.size)
      (held : contents b ≡ text) where
    store-Holds :
        (bytes : List ℕ)
        → b.length + length bytes < b.size
        → Holds (store malloc b bytes) (text ++ bytes)
    unfolding store
    store-Holds bytes h =
        let filled = copy b.buf b.length bytes in
        let n = b.length + length bytes in
        let wide : length filled ≡ b.size = length-copy b.buf b.length bytes ∙ len in
        record {
          valid = record {
            width = length-set filled n 0 ∙ wide;
            room = h;
            terminated = set_get filled n 0 1 (omega (arith, wide));
          };
          held =
              take-set filled n n 0 (omega arith)
              ∙ take-copy b.buf b.length n bytes refl (omega (arith, len))
              ∙ ap (λ t. t ++ bytes) held;
        }

    put_Holds :
        (ch : ℕ)
        → b.length + 1 < b.size
        → Holds
            (record b { length = b.length + 1; buf = set (set b.buf b.length ch) (b.length + 1) 0 })
            (text ++ (ch ∷ []))
    put_Holds ch h =
        let one = set b.buf b.length ch in
        let wide : length one ≡ b.size = length-set b.buf b.length ch ∙ len in
        record {
          valid = record {
            width = length-set one (b.length + 1) 0 ∙ wide;
            room = h;
            terminated = set_get one (b.length + 1) 0 1 (omega (arith, wide));
          };
          held =
              take-set one (b.length + 1) (b.length + 1) 0 (omega arith)
              ∙ take_one b.buf b.length ch (omega (arith, len))
              ∙ ap (λ t. t ++ (ch ∷ [])) held;
        }

    moved_held :
        (kept n : ℕ)
        → b.length ≤ kept
        → kept ≤ b.size
        → kept ≤ n
        → (length (moved malloc b kept n).buf ≡ n) × (contents (moved malloc b kept n) ≡ text)
    unfolding moved
    moved_held kept n h i j =
        let front : length (take kept b.buf) ≡ kept = length-take b.buf kept (omega (arith, len)) in
        let block = copy (malloc n) 0 (take kept b.buf) in
        (
          length-copy (malloc n) 0 (take kept b.buf) ∙ malloc_size n,
          sym (take-take block b.length kept h)
              ∙ ap (take b.length) (
                  take-copy (malloc n) 0 kept (take kept b.buf) (omega (arith, front))
                    (omega (arith, malloc_size n)))
              ∙ take-take b.buf b.length kept h
              ∙ held,
        )

  module _ (b : StringBuilder) (v : IsValid b) where
    -- `LT_StringBuilder_append_bytes` keeps the builder well formed and appends the bytes.
    append_bytes-Holds :
        (bytes : List ℕ) → Holds (append_bytes malloc b bytes) (contents b ++ bytes)
    unfolding append_bytes
    append_bytes-Holds [] = record { valid = v; held = sym (append-nil (contents b)) }
    append_bytes-Holds (c ∷ bytes) =
        let r = b.length + length (c ∷ bytes) + 1 in
        elim (Bool-cases (ltb b.size r)) [
          | inr fits ↦
              rw (fits, append_bytes)
                (store-Holds b (contents b) v.width refl (c ∷ bytes) (ground arith))
          | inl small ↦
              let n = enlarge r (b.size * 2 + 2) r in
              let big : r ≤ n = enlarge_enough r (b.size * 2 + 2) r (omega arith) in
              let (wide, same) =
                moved_held b (contents b) v.width refl (b.length + 1) n (omega arith)
                  (omega (arith, v.room)) (omega (arith, big)) in
              rw (small, append_bytes)
                (store-Holds (moved malloc b (b.length + 1) n) (contents b) (unfold moved in wide)
                  same (c ∷ bytes) (unfold moved in omega (arith, big)))
        ]

    -- `LT_StringBuilder_append_char` does so with its one byte.
    append_char-Holds : (ch : ℕ) → Holds (append_char malloc b ch) (contents b ++ (ch ∷ []))
    unfolding append_char
    append_char-Holds ch = elim (Bool-cases (ltb b.size (b.length + 2))) [
      | inr fits ↦ rw (fits, append_char) (put_Holds b (contents b) v.width refl ch (ground arith))
      | inl small ↦
          let n = b.size * 2 + 2 in
          let (wide, same) =
            moved_held b (contents b) v.width refl b.size n (omega (arith, v.room)) (omega arith)
              (omega arith) in
          rw (small, append_char)
            (put_Holds (moved malloc b b.size n) (contents b) (unfold moved in wide) same ch
              (unfold moved in omega (arith, v.room)))
    ]

  append_str-Holds :
      (str : List ℕ) (b : StringBuilder)
      → IsValid b
      → Holds (append_str malloc b str) (contents b ++ str)
  unfolding append_str
  append_str-Holds [] b v = record { valid = v; held = sym (append-nil (contents b)) }
  append_str-Holds (ch ∷ str) b v =
      let one = append_char-Holds b v ch in
      let rest = append_str-Holds str (append_char malloc b ch) one.valid in
      record {
        valid = rest.valid;
        held = rest.held ∙ ap (λ t. t ++ str) one.held ∙ append_assoc (contents b) (ch ∷ []) str;
      }

  -- On a well-formed builder, `LT_StringBuilder_append_bytes`, `LT_StringBuilder_append_char` and
  -- `LT_StringBuilder_append_str` leave a well-formed builder with their bytes behind the text; the
  -- text fits the block with the terminator behind it, whatever bytes a fresh block has.
  pub append_Holds :
      (b : StringBuilder)
      → IsValid b
      → ((bytes : List ℕ) → Holds (append_bytes malloc b bytes) (contents b ++ bytes))
        × ((ch : ℕ) → Holds (append_char malloc b ch) (contents b ++ (ch ∷ [])))
        × ((str : List ℕ) → Holds (append_str malloc b str) (contents b ++ str))
  append_Holds b v =
      (append_bytes-Holds b v, append_char-Holds b v, λ str. append_str-Holds str b v)
