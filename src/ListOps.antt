-- ===== src/ListOps.antt =====
-- src/classes/List.c: the list operations under the `List` class and the list primitives.
-- A list is the value that its pairs make, as it stands when an operation starts: `nil`, a pair, or
-- an atom, which is any other value, by its word. A circular list has no such value.
pub mod Iteration
pub mod Folds
pub mod Rows
pub mod Basics
pub mod Calls
pub mod Refine
pub mod Reductions
pub mod Reduce
pub mod Pure
pub mod Sort
pub mod Insertion
pub mod Sorted
pub mod Plist
mod Tests
use list_talk.Common.{
  ℕ, zero, suc, ◌+◌, ◌*◌, ◌^◌, Bool, true, false, not, Option, none, some, List, [], ◌∷◌, ◌==◌,
  if◌then◌else◌,
}

pub data Value : Type 0 where
  nil : Value
  pair : Value → Value → Value
  atom : ℕ → Value

-- The `LT_error` calls of the file, of src/vm/quasiquote.c and of the closures of src/vm/eval.c, each
-- with its message; `signalled` is what a callback raised, and `out_of_rounds` what a loop answers
-- that has no rounds left.
pub data Error : Type 0 where
  length_requires_proper_list index_requires_proper_list index_out_of_bounds : Error
  expects_proper_lists at_least_one_list at_least_one_tuple : Error
  alist_expects_proper_list alist_expects_pairs : Error
  plist_expects_even plist_expects_proper_list : Error
  operator_expects_one_argument splicing_expects_proper_list : Error
  splicing_outside_list expects_environment : Error
  keyword_parameter_shape keyword_name_must_be_symbol keyword_default_shape : Error
  optional_parameter_shape optional_name_must_be_symbol optional_default_shape : Error
  keyword_arguments_must_be_proper keyword_argument_must_be_keyword : Error
  keyword_argument_missing_value unknown_keyword_argument : Error
  duplicate_optional_marker keyword_parameters_must_be_proper : Error
  rest_must_be_followed rest_must_be_symbol rest_list_must_be_proper : Error
  rest_and_key rest_must_be_last arity_mismatch parameter_must_be_symbol : Error
  parameters_must_be_proper body_must_be_proper : Error
  signalled out_of_rounds : Error

pub data Result (A : Type 0) : Type 0 where
  ok : A → Result A
  error : Error → Result A

-- `LT_Pair_p`
abbrev pub pair_p : Value → Bool
pair_p (pair a d) = true
pair_p nil = false
pair_p (atom n) = false

-- `LT_Value_truthy_p`: neither `LT_NIL` nor `LT_FALSE`, the immediate 0 of tag 0x81.
abbrev pub false_word : ℕ
false_word = 0x81 * 2 ^ 56

unfoldable pub truthy_p : Value → Bool
truthy_p nil = false
truthy_p (pair a d) = true
truthy_p (atom n) = not (n == false_word)

-- `LT_ListBuilder` appends at the end of its list: the values in the order in which they came.
abbrev pub from_list_with_rest : List Value → Value → Value
from_list_with_rest [] rest = rest
from_list_with_rest (x ∷ xs) rest = pair x (from_list_with_rest xs rest)

abbrev pub from_list : List Value → Value
from_list xs = from_list_with_rest xs nil

-- `list_length`
unfoldable pub list_length_from : ℕ → Value → Result ℕ
list_length_from length nil = Result.ok length
list_length_from length (atom n) = Result.error Error.length_requires_proper_list
list_length_from length (pair a d) = list_length_from (length + 1) d

unfoldable pub list_length : Value → Result ℕ
unfolding list_length_from
list_length value = list_length_from 0 value

-- `LT_List_proper_p`
unfoldable pub proper_p : Value → Bool
proper_p nil = true
proper_p (atom n) = false
proper_p (pair a d) = proper_p d

-- `LT_List_at`; the loop counts `current` up to `index`.
unfoldable pub at_from : ℕ → Value → ℕ → Result Value
at_from current (pair a d) index =
    if current == index then Result.ok a else at_from (current + 1) d index
at_from current nil index = Result.error Error.index_out_of_bounds
at_from current (atom n) index = Result.error Error.index_requires_proper_list

unfoldable pub at : Value → ℕ → Result Value
unfolding at_from
at list index = at_from 0 list index

-- `LT_List_equal_p`; `value_equal_p` is `LT_Value_equal_p` on elements and on the ends.
module _ (value_equal_p : Value → Value → Bool) where
  unfoldable pub equal_p : Value → Value → Bool
  equal_p (pair a d) (pair b e) = if not (value_equal_p a b) then false else equal_p d e
  equal_p (pair a d) nil = false
  equal_p (pair a d) (atom n) = false
  equal_p nil (pair b e) = false
  equal_p (atom n) (pair b e) = false
  equal_p nil nil = value_equal_p nil nil
  equal_p nil (atom n) = value_equal_p nil (atom n)
  equal_p (atom n) nil = value_equal_p (atom n) nil
  equal_p (atom n) (atom m) = value_equal_p (atom n) (atom m)
