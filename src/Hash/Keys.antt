-- ===== src/Hash/Keys.antt =====
-- The two kinds of key of src/vm/utils.c: pointers compared by `==` and hashed by
-- `LT_pointer_hash`, C strings compared by `strcmp` and hashed by `LT_fnv_hash`.
-- A C string is the list of its bytes before the terminator.
use list_talk.Common.{
  ℕ, zero, suc, ◌+◌, ◌*◌, ◌/◌, ◌%◌, ◌^◌, ◌≤◌, ◌<◌, ◌≡◌, refl, ◌↔◌, Bool, true, false, ◌&&◌, List,
  [], ◌∷◌, arith, ◌==◌, ==_iff, if◌then◌else◌, bit_and,
}
use native.Mathlib.Nat.{pow-suc}

pub record Key {ℓ} (K : Type ℓ) : Type ℓ where
  pub equal : K → K → Bool
  pub equal_iff : (a b : K) → (equal a b ≡ true) ↔ (a ≡ b)
  pub hash : K → ℕ

-- `uint32_t` arithmetic of both hash functions: `res = (res + x) * 0x01000193`.
abbrev pub mix : ℕ → ℕ → ℕ
mix res x = (res + x) % 2 ^ 32 * 0x01000193 % 2 ^ 32

-- `while(buf){ res += buf & 0xfff; buf >>= 12; res *= 0x01000193; }`
unfoldable pub pointer_hash_loop : ℕ → ℕ → ℕ → ℕ
pointer_hash_loop zero buf res = res
pointer_hash_loop (suc fuel) buf res =
    let rest = pointer_hash_loop fuel (buf / 2 ^ 12) (mix res (bit_and buf 0xfff)) in
    if buf == 0 then res else rest

-- A pointer has 64 bits, and `buf >> 3` has 61, so six rounds are enough.
unfoldable pub pointer_hash : ℕ → ℕ
unfolding pointer_hash_loop
pointer_hash pointer = pointer_hash_loop 6 (pointer / 2 ^ 3) 0x811c9dc5

unfoldable pub fnv_hash_loop : ℕ → List ℕ → ℕ
fnv_hash_loop res [] = res
fnv_hash_loop res (c ∷ cs) = fnv_hash_loop (mix res c) cs

unfoldable pub fnv_hash : List ℕ → ℕ
unfolding fnv_hash_loop
fnv_hash string = fnv_hash_loop 0x811c9dc5 string

-- `strcmp(a, b) == 0`
unfoldable pub str_eq : List ℕ → List ℕ → Bool
str_eq [] [] = true
str_eq [] (d ∷ ds) = false
str_eq (c ∷ cs) [] = false
str_eq (c ∷ cs) (d ∷ ds) = (c == d) && str_eq cs ds

pub str_eq_iff : (a b : List ℕ) → (str_eq a b ≡ true) ↔ (a ≡ b)
unfolding str_eq
str_eq_iff [] [] = ground arith
str_eq_iff [] (d ∷ ds) = ground arith
str_eq_iff (c ∷ cs) [] = ground arith
str_eq_iff (c ∷ cs) (d ∷ ds) = ground (arith, str_eq_iff cs ds)

instance abbrev pub pointer_key : Key ℕ
pointer_key = record { equal = ◌==◌; equal_iff = ==_iff; hash = pointer_hash }

instance abbrev pub string_key : Key (List ℕ)
string_key = record { equal = str_eq; equal_iff = str_eq_iff; hash = fnv_hash }

pointer_hash_loop-zero : (f res : ℕ) → pointer_hash_loop f 0 res ≡ res
unfolding pointer_hash_loop
pointer_hash_loop-zero zero res = refl
pointer_hash_loop-zero (suc f) res = refl

pointer_hash_loop_enough :
    (f g buf res : ℕ)
    → f ≤ g
    → buf < 4096 ^ f
    → pointer_hash_loop g buf res ≡ pointer_hash_loop f buf res
unfolding pointer_hash_loop
pointer_hash_loop_enough zero g buf res le h =
    let e : buf ≡ 0 = omega arith in rw e (pointer_hash_loop-zero g res)
pointer_hash_loop_enough (suc f) zero buf res le h = absurd (omega arith)
pointer_hash_loop_enough (suc f) (suc g) buf res le h =
    ground (
      arith,
      pow-suc 4096 f,
      pointer_hash_loop_enough f g (buf / 4096) (mix res (bit_and buf 0xfff)),
    )

-- On a 64-bit pointer the loop of `LT_pointer_hash` ends by its test: any more rounds than the
-- six of `pointer_hash` give the same hash.
pub pointer_hash_rounds :
    (pointer rounds : ℕ)
    → pointer < 2 ^ 64
    → 6 ≤ rounds
    → pointer_hash_loop rounds (pointer / 2 ^ 3) 0x811c9dc5 ≡ pointer_hash pointer
unfolding pointer_hash
pointer_hash_rounds pointer rounds h le =
    pointer_hash_loop_enough 6 rounds (pointer / 2 ^ 3) 0x811c9dc5 le (omega arith)
