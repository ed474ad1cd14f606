-- ===== src/StringBuilder/Tests.antt =====
-- Runs of the builder, and its theorem at a concrete builder.
use list_talk.Common.{ℕ, ◌≡◌, refl, List, [], ◌∷◌, arith, length, replicate, length-replicate}
use list_talk.StringBuilder.{
  StringBuilder, copy, enlarge, new, moved, store, append_bytes, append_char, append_str,
}
use list_talk.StringBuilder.Contents.{IsValid, Holds, contents, append_Holds}

functions : Unit {0}
unfolding copy enlarge new moved store append_bytes append_char append_str
functions = tt

-- A block full of 7s.
abbrev malloc : ℕ → List ℕ
malloc n = replicate n 7

abbrev malloc_size : (n : ℕ) → length (malloc n) ≡ n
malloc_size n = length-replicate n 7

abbrev tiny : StringBuilder
tiny = record { length = 1; size = 2; buf = 65 ∷ 0 ∷ [] }

abbrev tiny-IsValid : IsValid tiny
tiny-IsValid = record { width = refl; room = omega arith; terminated = refl }

appended :
    contents (append_str malloc (append_bytes malloc tiny (66 ∷ 67 ∷ 68 ∷ [])) (69 ∷ 70 ∷ []))
    ≡ 65 ∷ 66 ∷ 67 ∷ 68 ∷ 69 ∷ 70 ∷ []
unfolding functions
appended = refl

append_Holds_example :
    ((bytes : List ℕ) → Holds (append_bytes malloc tiny bytes) (65 ∷ bytes))
    × ((ch : ℕ) → Holds (append_char malloc tiny ch) (65 ∷ ch ∷ []))
    × ((str : List ℕ) → Holds (append_str malloc tiny str) (65 ∷ str))
append_Holds_example = append_Holds malloc malloc_size tiny tiny-IsValid
