-- ===== src/StringBuilder.antt =====
-- src/vm/utils.c, `LT_StringBuilder`: a growing buffer of bytes that stays a C string.
pub mod Contents
mod Tests
use list_talk.Common.{
  ℕ, zero, suc, ◌+◌, ◌*◌, Bool, true, false, List, [], ◌∷◌, ltb, ◌==◌, if◌then◌else◌, length, set,
  take,
}

-- `struct LT_StringBuilder`; `buf` has all `size` bytes.
pub record StringBuilder : Type 0 where
  pub length : ℕ
  pub size : ℕ
  pub buf : List ℕ

-- `memcpy(buf + offset, bytes, n)` of `n` bytes
unfoldable pub copy : List ℕ → ℕ → List ℕ → List ℕ
copy [] offset bytes = []
copy (b ∷ buf) zero [] = b ∷ buf
copy (b ∷ buf) zero (c ∷ bytes) = c ∷ copy buf zero bytes
copy (b ∷ buf) (suc offset) bytes = b ∷ copy buf offset bytes

-- `while (new_size < required_size) new_size = new_size * 2 + 2`
unfoldable pub enlarge : ℕ → ℕ → ℕ → ℕ
enlarge zero new_size required_size = new_size
enlarge (suc fuel) new_size required_size =
    let rest = enlarge fuel (new_size * 2 + 2) required_size in
    if ltb new_size required_size then rest else new_size

-- `malloc` is `GC_MALLOC_ATOMIC`: a block of the size that is asked for, with any bytes.
module _ (malloc : ℕ → List ℕ) where
  unfoldable pub new : StringBuilder
  new = record { length = 0; size = 64; buf = set (malloc 64) 0 0 }

  -- The growth in `LT_StringBuilder_append_bytes` and in `LT_StringBuilder_append_char`: the first
  -- `kept` bytes move to a block of `new_size`.
  unfoldable pub moved : StringBuilder → ℕ → ℕ → StringBuilder
  moved builder kept new_size = record builder {
    size = new_size;
    buf = copy (malloc new_size) 0 (take kept builder.buf);
  }

  -- The end of `LT_StringBuilder_append_bytes`
  unfoldable pub store : StringBuilder → List ℕ → StringBuilder
  store builder bytes = record builder {
    length = builder.length + length bytes;
    buf = set (copy builder.buf builder.length bytes) (builder.length + length bytes) 0;
  }

  unfoldable pub append_bytes : StringBuilder → List ℕ → StringBuilder
  unfolding moved store enlarge
  append_bytes builder [] = builder
  append_bytes builder (b ∷ bytes) =
      let required_size = builder.length + length (b ∷ bytes) + 1 in
      if ltb builder.size required_size
      then store
          (moved builder (builder.length + 1)
            (enlarge required_size (builder.size * 2 + 2) required_size))
          (b ∷ bytes)
      else store builder (b ∷ bytes)

  -- `LT_StringBuilder_append_char`
  unfoldable pub append_char : StringBuilder → ℕ → StringBuilder
  unfolding moved
  append_char builder ch =
      let roomy =
        if ltb builder.size (builder.length + 2)
        then moved builder builder.size (builder.size * 2 + 2)
        else builder in
      record roomy {
        length = roomy.length + 1;
        buf = set (set roomy.buf roomy.length ch) (roomy.length + 1) 0;
      }

  -- `LT_StringBuilder_append_str`
  unfoldable pub append_str : StringBuilder → List ℕ → StringBuilder
  unfolding append_char
  append_str builder [] = builder
  append_str builder (ch ∷ str) = append_str (append_char builder ch) str
