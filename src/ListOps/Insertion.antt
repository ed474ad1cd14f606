-- ===== src/ListOps/Insertion.antt =====
-- The insertion sort that the merge sort is compared with, and the merge of two sorted lists.
use list_talk.Common.{
  ℕ, zero, suc, ◌+◌, ◌≤◌, ◌≡◌, refl, ap, ◌∙◌, Bool, true, false, ◌&&◌, List, [], ◌∷◌, ◌++◌, arith,
  length, Bool-cases, inl, inr, if◌then◌else◌,
}
use mathlib.Core.Path.{subst}
use list_talk.ListOps.Sort.{Comparison, at_most, merge}

-- The first value may stand before the second.
abbrev pub in_order : Comparison → Bool
in_order Comparison.less = true
in_order Comparison.same = true
in_order Comparison.greater = false

in_order_lem : (c : Comparison) → at_most c ≡ in_order c
in_order_lem Comparison.less = refl
in_order_lem Comparison.same = refl
in_order_lem Comparison.greater = refl

-- A comparison that orders all the values, with ties.
pub record IsOrder {A : Type 0} (compare : A → A → Comparison) : Type 0 where
  pub total : (x y : A) → in_order (compare x y) ≡ false → in_order (compare y x) ≡ true
  pub trans :
      (x y z : A)
      → in_order (compare x y) ≡ true
      → in_order (compare y z) ≡ true
      → in_order (compare x z) ≡ true

abbrev pub filter : {A : Type 0} → (A → Bool) → List A → List A
filter p [] = []
filter p (x ∷ xs) = if p x then x ∷ filter p xs else filter p xs

module _ {A : Type 0} (compare : A → A → Comparison) where
  abbrev pub le : A → A → Bool
  le x y = in_order (compare x y)

  -- Before the first value that is not smaller.
  unfoldable pub insert : A → List A → List A
  insert x [] = x ∷ []
  insert x (y ∷ ys) = if le x y then x ∷ y ∷ ys else y ∷ insert x ys

  unfoldable pub insertion_sort : List A → List A
  insertion_sort [] = []
  insertion_sort (x ∷ xs) = insert x (insertion_sort xs)

  abbrev pub IsSorted : List A → Type 0
  IsSorted [] = Unit
  IsSorted (x ∷ []) = Unit
  IsSorted (x ∷ y ∷ ys) = (le x y ≡ true) × IsSorted (y ∷ ys)

  -- The values that tie with `v`.
  abbrev pub ties : A → A → Bool
  ties v y = le v y && le y v

  pub length-insert : (x : A) (ys : List A) → length (insert x ys) ≡ suc (length ys)
  unfolding insert
  length-insert x [] = refl
  length-insert x (y ∷ ys) = ground (arith, length-insert x ys)

  pub length-insertion_sort : (xs : List A) → length (insertion_sort xs) ≡ length xs
  unfolding insertion_sort
  length-insertion_sort [] = refl
  length-insertion_sort (x ∷ xs) =
      length-insert x (insertion_sort xs) ∙ ap suc (length-insertion_sort xs)

  merge-nothing : (n : ℕ) (ys : List A) → length ys ≤ n → merge compare n [] ys ≡ ys
  unfolding merge
  merge-nothing zero [] h = refl
  merge-nothing zero (y ∷ ys) h = absurd (omega arith)
  merge-nothing (suc n) [] h = refl
  merge-nothing (suc n) (y ∷ ys) h = ap (λ t. y ∷ t) (merge-nothing n ys (omega arith))

  module _ (o : IsOrder compare) where
    merge-insert :
        (n : ℕ) (x : A) (xs ys : List A)
        → length xs + length ys ≤ n
        → merge compare (suc n) (insert x xs) ys ≡ insert x (merge compare n xs ys)
    unfolding merge insert
    merge-insert zero x [] [] h = refl
    merge-insert zero x (a ∷ bs) ys h = absurd (omega arith)
    merge-insert zero x [] (y ∷ ys) h = absurd (omega arith)
    merge-insert (suc n) x [] [] h = refl
    merge-insert (suc n) x [] (y ∷ ys) h =
        ground (arith, in_order_lem (compare x y), merge-insert n x [] ys)
    merge-insert (suc n) x (a ∷ bs) [] h = ground (arith, merge-insert n x bs [])
    merge-insert (suc n) x (a ∷ bs) (y ∷ ys) h = ground (
      arith,
      in_order_lem (compare x y),
      in_order_lem (compare a y),
      o.trans x a y,
      o.trans a x y,
      o.total x a,
      merge-insert n x (a ∷ bs) ys,
      merge-insert n x bs (y ∷ ys),
    )

    -- Sorting two halves and merging them sorts the whole.
    pub merge-insertion_sort :
        (n : ℕ) (xs ys : List A)
        → length xs + length ys ≤ n
        → merge compare n (insertion_sort xs) (insertion_sort ys) ≡ insertion_sort (xs ++ ys)
    unfolding insertion_sort
    merge-insertion_sort n [] ys h =
        merge-nothing n (insertion_sort ys) (omega (arith, length-insertion_sort ys))
    merge-insertion_sort zero (x ∷ xs) ys h = absurd (omega arith)
    merge-insertion_sort (suc n) (x ∷ xs) ys h =
        merge-insert n x (insertion_sort xs) (insertion_sort ys)
          (omega (arith, length-insertion_sort xs, length-insertion_sort ys))
        ∙ ap (insert x) (merge-insertion_sort n xs ys (omega arith))

    insert-IsSorted : (x : A) (ys : List A) → IsSorted ys → IsSorted (insert x ys)
    unfolding insert
    insert-IsSorted x [] h = tt
    insert-IsSorted x (y ∷ []) h = elim (Bool-cases (le x y)) [
      | inl e ↦ rw e (e, tt)
      | inr e ↦ rw e (o.total x y e, tt)
    ]
    insert-IsSorted x (y ∷ z ∷ ys) (i, h) = elim (Bool-cases (le x y)) [
      | inl e ↦ rw e (e, (i, h))
      | inr e ↦ elim (Bool-cases (le x z)) [
        | inl f ↦ rw (e, f) (o.total x y e, (f, h))
        | inr f ↦
            rw (e, f)
              (
                i,
                subst (λ b. IsSorted (if b then x ∷ z ∷ ys else z ∷ insert x ys)) f
                    (insert-IsSorted x (z ∷ ys) h),
              )
      ]
    ]

    pub insertion_sort-IsSorted : (xs : List A) → IsSorted (insertion_sort xs)
    unfolding insertion_sort
    insertion_sort-IsSorted [] = tt
    insertion_sort-IsSorted (x ∷ xs) =
        insert-IsSorted x (insertion_sort xs) (insertion_sort-IsSorted xs)

    filter-insert :
        (v x : A) (ys : List A) → filter (ties v) (insert x ys) ≡ filter (ties v) (x ∷ ys)
    unfolding insert
    filter-insert v x [] = refl
    filter-insert v x (y ∷ ys) = ground (arith, o.trans x v y, filter-insert v x ys)

    -- Values that tie stay in their order.
    pub filter-insertion_sort :
        (v : A) (xs : List A) → filter (ties v) (insertion_sort xs) ≡ filter (ties v) xs
    unfolding insertion_sort
    filter-insertion_sort v [] = refl
    filter-insertion_sort v (x ∷ xs) =
        filter-insert v x (insertion_sort xs)
        ∙ ap (λ t. if ties v x then x ∷ t else t) (filter-insertion_sort v xs)
