-- ===== src/Hash/Tests.antt =====
-- Runs of the hash table, and its theorems at concrete tables.
use list_talk.Common.{ℕ, ◌+◌, ◌*◌, ◌%◌, ◌^◌, ◌≡◌, refl, none, some, List, [], ◌∷◌}
use list_talk.Hash.{
  InlineHash, init, move_chain, move_all, grow_table, find_entry, get_hash_entry, assign, link,
  add_hash_entry, at_put, at, unlink, remove,
}
use list_talk.Hash.Keys.{
  pointer_hash_loop, pointer_hash, fnv_hash_loop, fnv_hash, str_eq, pointer_key, string_key,
}
use list_talk.Hash.Placement.{look}
use list_talk.Hash.Chains.{find}
use list_talk.Hash.Refine.{
  view, IsValid, Writes, init_lem, grow_table_lem, at_put-Writes, remove-Writes,
}

functions : Unit {0}
unfolding init move_chain move_all grow_table find_entry get_hash_entry assign link add_hash_entry
    at_put at unlink remove pointer_hash_loop pointer_hash fnv_hash_loop fnv_hash str_eq view look
    find
functions = tt

-- Ten pointers in a table that starts with eight chains.
abbrev put_all : List ℕ → InlineHash ℕ ℕ → InlineHash ℕ ℕ
put_all [] h = h
put_all (p ∷ ps) h = put_all ps (at_put h p (p + 1))

abbrev ten : InlineHash ℕ ℕ
ten = put_all (8 ∷ 16 ∷ 24 ∷ 32 ∷ 40 ∷ 48 ∷ 56 ∷ 64 ∷ 72 ∷ 80 ∷ []) init

grown : ten.mask ≡ 15
unfolding functions
grown = refl

counted : ten.count ≡ 10
unfolding functions
counted = refl

kept : at 0 ten 24 ≡ 25
unfolding functions
kept = refl

missing : at 0 ten 88 ≡ 0
unfolding functions
missing = refl

removed : (remove ten 24).0 ≡ some 25
unfolding functions
removed = refl

-- `"car"` by `LT_fnv_hash`
car :
    fnv_hash (99 ∷ 97 ∷ 114 ∷ [])
    ≡ ((((0x811c9dc5 + 99) * 0x01000193 + 97) * 0x01000193 + 114) * 0x01000193) % 2 ^ 32
unfolding functions
car = refl

abbrev empty : InlineHash ℕ ℕ
empty = init

abbrev empty_IsValid : IsValid empty
empty_IsValid = (init_lem {V = ℕ}).0

abbrev one : InlineHash ℕ ℕ
one = at_put empty 8 7

one_IsValid : IsValid one
one_IsValid = (at_put-Writes empty empty_IsValid 8 7).valid

grow_table_lem_example :
    IsValid (grow_table one)
    × ((grow_table one).mask + 1 ≡ (one.mask + 1) * 2)
    × ((grow_table one).count ≡ one.count)
    × ((q : ℕ) → view (grow_table one) q ≡ view one q)
grow_table_lem_example = grow_table_lem one one_IsValid

at_put-Writes_example : Writes one 16 (some 9) (at_put one 16 9)
at_put-Writes_example = at_put-Writes one one_IsValid 16 9

remove-Writes_example : ((remove one 8).0 ≡ view one 8) × Writes one 8 none (remove one 8).1
remove-Writes_example = remove-Writes one one_IsValid 8
