-- ===== src/ListOps/Sorted.antt =====
-- The merge sort of src/classes/List.c sorts, and keeps the order of values that tie.
use list_talk.Common.{
  ℕ, zero, suc, ◌+◌, ◌-◌, ◌/◌, ◌≤◌, ◌≡◌, refl, ap, sym, ◌∙◌, true, List, [], ◌∷◌, ◌++◌, arith,
  length, length-append, take, drop, ltb, Bool-cases, inl, inr,
}
use mathlib.Core.List.{append_assoc, append-nil}
use list_talk.ListOps.{Value, ok, from_list, list_length, list_length_from}
use list_talk.ListOps.Sort.{
  Comparison, segment, copy_back, merge, merge_sort_values, sort_values, list_items, sort_using,
}
use list_talk.ListOps.Insertion.{
  IsOrder, filter, insert, insertion_sort, IsSorted, ties, length-insertion_sort,
  merge-insertion_sort, insertion_sort-IsSorted, filter-insertion_sort,
}

module _ {A : Type 0} where
  length-take : (n : ℕ) (xs : List A) → n ≤ length xs → length (take n xs) ≡ n
  length-take zero xs h = refl
  length-take (suc n) [] h = absurd (omega arith)
  length-take (suc n) (x ∷ xs) h = ap suc (length-take n xs (omega arith))

  take-drop : (n : ℕ) (xs : List A) → take n xs ++ drop n xs ≡ xs
  take-drop zero xs = refl
  take-drop (suc n) [] = refl
  take-drop (suc n) (x ∷ xs) = ap (λ t. x ∷ t) (take-drop n xs)

  take-append : (m q : List A) → take (length m) (m ++ q) ≡ m
  take-append [] q = refl
  take-append (x ∷ m) q = ap (λ t. x ∷ t) (take-append m q)

  drop-append : (p q : List A) → drop (length p) (p ++ q) ≡ q
  drop-append [] q = refl
  drop-append (x ∷ p) q = drop-append p q

  segment-append :
      (p m q items : List A) (from to : ℕ)
      → items ≡ p ++ (m ++ q)
      → from ≡ length p
      → to ≡ length p + length m
      → segment items from to ≡ m
  segment-append p m q items from to e f g =
      ap (λ n. take n (drop from items)) (omega (arith, f, g))
      ∙ ap (λ l. take (length m) (drop from l)) e
      ∙ ap (λ n. take (length m) (drop n (p ++ (m ++ q)))) f
      ∙ ap (take (length m)) (drop-append p (m ++ q))
      ∙ take-append m q

  copy_back-append :
      (p m q v : List A)
      → length v ≡ length m
      → copy_back (p ++ (m ++ q)) (length p) v ≡ p ++ (v ++ q)
  unfolding copy_back
  copy_back-append [] [] q [] h = unfold copy_back in refl
  copy_back-append [] [] q (x ∷ v) h = absurd (omega arith)
  copy_back-append [] (y ∷ m) q [] h = absurd (omega arith)
  copy_back-append [] (y ∷ m) q (x ∷ v) h =
      ap (λ t. x ∷ t) (copy_back-append [] m q v (omega arith))
  copy_back-append (y ∷ p) m q (x ∷ v) h = ap (λ t. y ∷ t) (copy_back-append p m q (x ∷ v) h)
  copy_back-append (y ∷ p) [] q [] h = refl
  copy_back-append (y ∷ p) (z ∷ m) q [] h = absurd (omega arith)

module _ {A : Type 0} (compare : A → A → Comparison) (o : IsOrder compare) where
  insertion_sort-short : (m : List A) → ltb (length m) 2 ≡ true → insertion_sort compare m ≡ m
  unfolding insertion_sort insert
  insertion_sort-short [] h = refl
  insertion_sort-short (x ∷ []) h = refl
  insertion_sort-short (x ∷ y ∷ m) h = absurd (ground arith)

  -- The loops and the copying behind the two calls, where these sorted both halves.
  merge_step :
      (pre a b post twice : List A) (from middle to : ℕ)
      → twice ≡ pre ++ (insertion_sort compare a ++ (insertion_sort compare b ++ post))
      → from ≡ length pre
      → middle ≡ length pre + length a
      → to ≡ length pre + length a + length b
      → copy_back twice from
          (merge compare (to - from) (segment twice from middle) (segment twice middle to))
        ≡ pre ++ (insertion_sort compare (a ++ b) ++ post)
  merge_step pre a b post twice from middle to e f g h =
      let sa = insertion_sort compare a in
      let sb = insertion_sort compare b in
      let la = length-insertion_sort compare a in
      let lb = length-insertion_sort compare b in
      let left : segment twice from middle ≡ sa =
        segment-append pre sa (sb ++ post) twice from middle e f (omega (arith, g, la)) in
      let right : segment twice middle to ≡ sb =
        segment-append (pre ++ sa) sb post twice middle to
          (e ∙ sym (append_assoc pre sa (sb ++ post))) (omega (arith, g, la, length-append pre sa))
          (omega (arith, h, la, lb, length-append pre sa)) in
      let merged : merge compare (to - from) sa sb ≡ insertion_sort compare (a ++ b) =
        merge-insertion_sort compare o (to - from) a b (omega (arith, f, h)) in
      rw (left, right, merged, f, e)
        (ap (λ l. copy_back (pre ++ l) (length pre) (insertion_sort compare (a ++ b)))
            (sym (append_assoc sa sb post))
          ∙ copy_back-append pre (sa ++ sb) post (insertion_sort compare (a ++ b)) (
              omega (
                arith,
                length-append sa sb,
                la,
                lb,
                length-insertion_sort compare (a ++ b),
                length-append a b,
              )))

  -- The call on `items[from..to)` sorts this part, `mid`, and leaves the others, when there is fuel
  -- for its length.
  pub merge_sort_values-part :
      (fuel : ℕ) (pre mid post items : List A) (from to : ℕ)
      → items ≡ pre ++ (mid ++ post)
      → from ≡ length pre
      → to ≡ length pre + length mid
      → length mid ≤ fuel
      → merge_sort_values compare fuel items from to ≡ pre ++ (insertion_sort compare mid ++ post)
  unfolding merge_sort_values
  merge_sort_values-part zero pre [] post items from to e f g h = unfold insertion_sort in e
  merge_sort_values-part zero pre (x ∷ mid) post items from to e f g h = absurd (omega arith)
  merge_sort_values-part (suc fuel) pre mid post items from to e f g h =
      elim (Bool-cases (ltb (to - from) 2)) [
        | inl short ↦
            rw (merge_sort_values, short)
              (e
                ∙ ap (λ m. pre ++ (m ++ post))
                    (sym (insertion_sort-short mid (ground (arith, f, g)))))
        | inr long ↦
            let half = (to - from) / 2 in
            let a = take half mid in
            let b = drop half mid in
            let sa = insertion_sort compare a in
            let whole : a ++ b ≡ mid = take-drop half mid in
            let inside : half ≤ length mid = omega (arith, f, g) in
            let la : length a ≡ half = length-take half mid inside in
            let lb : length a + length b ≡ length mid =
              omega (arith, length-append a b, ap length whole) in
            let long' : 2 ≤ length mid = ground (arith, f, g) in
            let once =
              merge_sort_values-part fuel pre a (b ++ post) items from (from + half)
                (e
                  ∙ ap (λ m. pre ++ (m ++ post)) (sym whole)
                  ∙ ap (λ l. pre ++ l) (append_assoc a b post))
                f (omega (arith, f, la)) (omega (arith, la, f, g)) in
            let twice =
              merge_sort_values-part fuel (pre ++ sa) b post
                (merge_sort_values compare fuel items from (from + half)) (from + half) to
                (once ∙ sym (append_assoc pre sa (b ++ post)))
                (omega (arith, f, la, length-append pre sa, length-insertion_sort compare a))
                (omega (arith, f, g, la, lb, length-append pre sa, length-insertion_sort compare a))
                (omega (arith, la, lb, f, g)) in
            rw (merge_sort_values, long)
              (merge_step pre a b post
                  (merge_sort_values compare fuel
                    (merge_sort_values compare fuel items from (from + half)) (from + half) to)
                  from (from + half) to
                  (twice ∙ append_assoc pre sa (insertion_sort compare b ++ post)) f
                  (omega (arith, f, la)) (omega (arith, g, lb))
                ∙ ap (λ m. pre ++ (insertion_sort compare m ++ post)) whole)
      ]

  sort_values-insertion_sort :
      (xs : List A) → sort_values compare xs (length xs) ≡ insertion_sort compare xs
  unfolding sort_values
  sort_values-insertion_sort xs = elim (Bool-cases (ltb (length xs) 2)) [
    | inl short ↦ rw (sort_values, short) (sym (insertion_sort-short xs short))
    | inr long ↦
        rw (sort_values, long)
          (merge_sort_values-part (length xs) [] xs [] xs 0 (length xs) (sym (append-nil xs)) refl
              (omega arith) (omega arith)
            ∙ append-nil (insertion_sort compare xs))
  ]

list_length_from_lem :
    (n : ℕ) (xs : List Value) → list_length_from n (from_list xs) ≡ ok (n + length xs)
unfolding list_length_from
list_length_from_lem n [] = ap ok (omega arith)
list_length_from_lem n (x ∷ xs) = list_length_from_lem (n + 1) xs ∙ ap ok (omega arith)

list_items-from_list : (xs : List Value) → list_items (from_list xs) ≡ xs
unfolding list_items
list_items-from_list [] = refl
list_items-from_list (x ∷ xs) = ap (λ t. x ∷ t) (list_items-from_list xs)

module _ (compare : Value → Value → Comparison) (o : IsOrder compare) where
  sort_using-insertion_sort :
      (xs : List Value)
      → sort_using compare (from_list xs) ≡ ok (from_list (insertion_sort compare xs))
  unfolding sort_using list_length
  sort_using-insertion_sort [] = unfold list_length_from insertion_sort in refl
  sort_using-insertion_sort (x ∷ xs) =
      rw (sort_using, list_length_from_lem 0 (x ∷ xs), list_items-from_list (x ∷ xs))
        (ground (arith, sort_values-insertion_sort compare o (x ∷ xs)))

  -- Where the comparison orders all values with ties, `LT_List_sortUsing` of a proper list answers
  -- a proper list that is sorted and that has, for each value, the same values that tie with it in
  -- the same order: a stable sort, which loses and adds nothing.
  pub sort_using_lem :
      (xs : List Value)
      → (ys : List Value) × (sort_using compare (from_list xs) ≡ ok (from_list ys))
        × IsSorted compare ys
        × ((v : Value) → filter (ties compare v) ys ≡ filter (ties compare v) xs)
  sort_using_lem xs = (
    insertion_sort compare xs,
    sort_using-insertion_sort xs,
    insertion_sort-IsSorted compare o xs,
    λ v. filter-insertion_sort compare o v xs,
  )
