-- ===== src/ListOps/Plist.antt =====
-- src/classes/List.c: between association lists and property lists.
use list_talk.Common.{◌≡◌, refl, ap, ◌∙◌, List, [], ◌∷◌, ◌++◌, arith}
use mathlib.Core.List.{append_assoc, append-nil}
use list_talk.ListOps.{Value, nil, pair, atom, Error, Result, ok, error, from_list}

-- `LT_List_alistToPlist`; `builder` holds the values so far.
unfoldable pub alist_to_plist_loop : List Value → Value → Result Value
alist_to_plist_loop builder nil = ok (from_list builder)
alist_to_plist_loop builder (atom n) = error Error.alist_expects_proper_list
alist_to_plist_loop builder (pair nil alist) = error Error.alist_expects_pairs
alist_to_plist_loop builder (pair (atom n) alist) = error Error.alist_expects_pairs
alist_to_plist_loop builder (pair (pair key value) alist) =
    alist_to_plist_loop (builder ++ (key ∷ value ∷ [])) alist

unfoldable pub alist_to_plist : Value → Result Value
unfolding alist_to_plist_loop
alist_to_plist alist = alist_to_plist_loop [] alist

-- `LT_List_plistToAlist`
unfoldable pub plist_to_alist_loop : List Value → Value → Result Value
plist_to_alist_loop builder nil = ok (from_list builder)
plist_to_alist_loop builder (atom n) = error Error.plist_expects_proper_list
plist_to_alist_loop builder (pair key nil) = error Error.plist_expects_even
plist_to_alist_loop builder (pair key (atom n)) = error Error.plist_expects_proper_list
plist_to_alist_loop builder (pair key (pair value plist)) =
    plist_to_alist_loop (builder ++ (pair key value ∷ [])) plist

unfoldable pub plist_to_alist : Value → Result Value
unfolding plist_to_alist_loop
plist_to_alist plist = plist_to_alist_loop [] plist

abbrev entries : List (Value × Value) → List Value
entries [] = []
entries ((k, v) ∷ items) = pair k v ∷ entries items

abbrev flat : List (Value × Value) → List Value
flat [] = []
flat ((k, v) ∷ items) = k ∷ v ∷ flat items

alist_loop_ok :
    (items : List (Value × Value)) (builder : List Value)
    → alist_to_plist_loop builder (from_list (entries items))
      ≡ ok (from_list (builder ++ flat items))
unfolding alist_to_plist_loop
alist_loop_ok [] builder = rw (append-nil builder)
alist_loop_ok ((k, v) ∷ items) builder =
    alist_loop_ok items (builder ++ (k ∷ v ∷ []))
    ∙ ap (λ l. ok (from_list l)) (append_assoc builder (k ∷ v ∷ []) (flat items))

plist_loop_ok :
    (items : List (Value × Value)) (builder : List Value)
    → plist_to_alist_loop builder (from_list (flat items))
      ≡ ok (from_list (builder ++ entries items))
unfolding plist_to_alist_loop
plist_loop_ok [] builder = rw (append-nil builder)
plist_loop_ok ((k, v) ∷ items) builder =
    plist_loop_ok items (builder ++ (pair k v ∷ []))
    ∙ ap (λ l. ok (from_list l)) (append_assoc builder (pair k v ∷ []) (entries items))

alist_shape :
    (alist out : Value) (builder : List Value)
    → alist_to_plist_loop builder alist ≡ ok out
    → (items : List (Value × Value)) × (alist ≡ from_list (entries items))
unfolding alist_to_plist_loop
alist_shape nil out builder e = ([], refl)
alist_shape (atom n) out builder e = absurd (ground arith)
alist_shape (pair nil alist) out builder e = absurd (ground arith)
alist_shape (pair (atom n) alist) out builder e = absurd (ground arith)
alist_shape (pair (pair k v) alist) out builder e =
    let (items, same) = alist_shape alist out (builder ++ (k ∷ v ∷ [])) e in
    ((k, v) ∷ items, ap (pair (pair k v)) same)

plist_shape :
    (plist out : Value) (builder : List Value)
    → plist_to_alist_loop builder plist ≡ ok out
    → (items : List (Value × Value)) × (plist ≡ from_list (flat items))
unfolding plist_to_alist_loop
plist_shape nil out builder e = ([], refl)
plist_shape (atom n) out builder e = absurd (ground arith)
plist_shape (pair k nil) out builder e = absurd (ground arith)
plist_shape (pair k (atom n)) out builder e = absurd (ground arith)
plist_shape (pair k (pair v plist)) out builder e =
    let (items, same) = plist_shape plist out (builder ++ (pair k v ∷ [])) e in
    ((k, v) ∷ items, ap (λ t. pair k (pair v t)) same)

-- On any value, `LT_List_plistToAlist` undoes an `LT_List_alistToPlist` that answers, and the other
-- way round.
pub alist_to_plist-inverse :
    (a b : Value)
    → (alist_to_plist a ≡ ok b → plist_to_alist b ≡ ok a)
      × (plist_to_alist a ≡ ok b → alist_to_plist b ≡ ok a)
unfolding alist_to_plist plist_to_alist
alist_to_plist-inverse a b = (
  λ e.
      let (items, same) = alist_shape a b [] e in
      ground (arith, alist_loop_ok items [], plist_loop_ok items []),
  λ e.
      let (items, same) = plist_shape a b [] e in
      ground (arith, alist_loop_ok items [], plist_loop_ok items []),
)
