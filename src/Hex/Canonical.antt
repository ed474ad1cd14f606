-- ===== src/Hex/Canonical.antt =====
-- What the decoder accepts.
use list_talk.Common.{ℕ, ◌+◌, ◌≡◌, false, ◌&&◌, List, [], ◌∷◌, leb, if◌then◌else◌, All}
use list_talk.Hex.{encode_bytes}
use list_talk.Hex.Roundtrip.{alphabet, IsByte}

-- The letter in lower case.
abbrev pub lower : ℕ → ℕ
lower c = if leb 65 c && leb c 70 then c + 32 else c

abbrev pub map_lower : List ℕ → List ℕ
map_lower [] = []
map_lower (c ∷ cs) = lower c ∷ map_lower cs

IsReadBack : List ℕ → List ℕ → Type 0
IsReadBack text bytes = All IsByte bytes × (map_lower text ≡ encode_bytes (alphabet false) bytes)
