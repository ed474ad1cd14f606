-- ===== src/ListOps/Basics.antt =====
-- `LT_List_proper_p`, `list_length`, `LT_List_at` and `LT_List_equal_p` on the lists that a value
-- makes.
use list_talk.Common.{
  ℕ, suc, ◌+◌, ◌-◌, ◌≤◌, ◌≡◌, refl, ap, sym, ◌∙◌, ◌↔◌, Bool, true, false, Option, none, some, List,
  [], ◌∷◌, arith, length, get_or, ltb, ◌==◌, if◌then◌else◌, Bool-cases, inl, inr,
}
use list_talk.ListOps.{
  Value, nil, pair, atom, Error, Result, ok, error, list_length_from, list_length, proper_p,
  at_from, at, equal_p,
}
use list_talk.ListOps.Rows.{value_of}

-- The answers for a list of these elements that ends in this atom, if it is not proper.
abbrev pub is_proper : Option ℕ → Bool
is_proper none = true
is_proper (some n) = false

abbrev pub measured : List Value → Option ℕ → Result ℕ
measured xs none = ok (length xs)
measured xs (some n) = error Error.length_requires_proper_list

abbrev pub indexed : List Value → Option ℕ → ℕ → Result Value
indexed xs e i =
    if ltb i (length xs)
    then ok (get_or xs i nil)
    else if is_proper e
    then error Error.index_out_of_bounds
    else error Error.index_requires_proper_list

proper_p_lem : (xs : List Value) (e : Option ℕ) → proper_p (value_of (xs, e)) ≡ is_proper e
unfolding proper_p
proper_p_lem [] none = refl
proper_p_lem [] (some n) = refl
proper_p_lem (x ∷ xs) e = proper_p_lem xs e

length_from_lem :
    (n : ℕ) (xs : List Value) (e : Option ℕ)
    → list_length_from n (value_of (xs, e))
      ≡ elim (measured xs e) [ ok k ↦ ok (n + k) | error x ↦ error x ]
unfolding list_length_from
length_from_lem n [] none = ap ok (omega arith)
length_from_lem n [] (some m) = refl
length_from_lem n (x ∷ xs) none = length_from_lem (n + 1) xs none ∙ ap ok (omega arith)
length_from_lem n (x ∷ xs) (some m) = length_from_lem (n + 1) xs (some m)

at_from_lem :
    (c : ℕ) (xs : List Value) (e : Option ℕ) (i : ℕ)
    → c ≤ i
    → at_from c (value_of (xs, e)) i ≡ indexed xs e (i - c)
unfolding at_from
at_from_lem c [] none i h = ground arith
at_from_lem c [] (some n) i h = ground arith
at_from_lem c (x ∷ xs) e i h = elim (Bool-cases (c == i)) [
  | inl same ↦ let here : i - c ≡ 0 = ground arith in rw (same, here) (ground arith)
  | inr other ↦
      let next : i - c ≡ suc (i - (c + 1)) = ground arith in
      rw (other, next) (at_from_lem (c + 1) xs e i (ground arith) ∙ ground arith)
]

-- On any list, `LT_List_proper_p` tells whether it is proper, and `list_length` and `LT_List_at`
-- answer the number of its elements and the element at the index; they raise on a list that is not
-- proper, `LT_List_at` only behind the last element, and behind that of a proper list another error.
pub access_lem :
    (xs : List Value) (e : Option ℕ)
    → (proper_p (value_of (xs, e)) ≡ is_proper e)
      × (list_length (value_of (xs, e)) ≡ measured xs e)
      × ((i : ℕ) → at (value_of (xs, e)) i ≡ indexed xs e i)
unfolding list_length at
access_lem xs e = (
  proper_p_lem xs e,
  length_from_lem 0 xs e ∙ from_zero (measured xs e),
  λ i. at_from_lem 0 xs e i (omega arith) ∙ ap (indexed xs e) (omega arith),
)
  where
    from_zero : (m : Result ℕ) → elim m [ ok k ↦ ok (0 + k) | error x ↦ error x ] ≡ m
    from_zero (ok k) = ap ok (omega arith)
    from_zero (error x) = refl

module _ (value_equal_p : Value → Value → Bool)
    (decides : (a b : Value) → (value_equal_p a b ≡ true) ↔ (a ≡ b)) where
  equal_p_sound : (a b : Value) → equal_p value_equal_p a b ≡ true → a ≡ b
  unfolding equal_p
  equal_p_sound (pair a d) (pair b c) h = ground (arith, decides a b, equal_p_sound d c)
  equal_p_sound (pair a d) nil h = absurd (ground arith)
  equal_p_sound (pair a d) (atom n) h = absurd (ground arith)
  equal_p_sound nil (pair b c) h = absurd (ground arith)
  equal_p_sound (atom n) (pair b c) h = absurd (ground arith)
  equal_p_sound nil nil h = refl
  equal_p_sound nil (atom n) h = (decides nil (atom n)).0 h
  equal_p_sound (atom n) nil h = (decides (atom n) nil).0 h
  equal_p_sound (atom n) (atom m) h = (decides (atom n) (atom m)).0 h

  equal_p_complete : (a : Value) → equal_p value_equal_p a a ≡ true
  unfolding equal_p
  equal_p_complete (pair a d) = ground (arith, decides a a, equal_p_complete d)
  equal_p_complete nil = (decides nil nil).1 refl
  equal_p_complete (atom n) = (decides (atom n) (atom n)).1 refl

  -- Where `LT_Value_equal_p` decides equality of the elements and of the ends, `LT_List_equal_p`
  -- decides equality of lists.
  pub equal_p_iff : (a b : Value) → (equal_p value_equal_p a b ≡ true) ↔ (a ≡ b)
  equal_p_iff a b =
      (equal_p_sound a b, λ h. ap (equal_p value_equal_p a) (sym h) ∙ equal_p_complete a)
