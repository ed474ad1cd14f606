-- ===== src/Closure.antt =====
-- src/vm/eval.c: how a closure is applied, `bind_closure_parameters` and what it calls, and
-- `apply_closure`, with the compiled body that src/classes/Closure.c keeps. The heap of environments is that of Environment, the values, the errors and the
-- outcomes are those of ListOps, and `S` is the rest of the interpreter's state.
-- `eval_form` is a parameter, and so are the symbols: `Symbols` is what src/classes/Symbol.c and
-- src/classes/Package.c give.
pub mod Parameters
pub mod Compile
pub mod Scope
pub mod Application
pub mod Keywords
mod Tests
use list_talk.Common.{
  ℕ, zero, suc, Bool, true, false, not, ◌&&◌, List, [], ◌∷◌, Option, none, some, ◌==◌, ◌≡◌,
  if◌then◌else◌,
}
use list_talk.ListOps.{Value, nil, pair, atom, Error, Result, ok, error}
use list_talk.ListOps.Iteration.{Outcome, returns, raises}
use list_talk.Hash.Keys.{str_eq}
use list_talk.Environment.{Heap}
use list_talk.Environment

-- Symbols by their words. A keyword is a symbol of the package `LT_PACKAGE_KEYWORD`, and `keyword`
-- is `LT_Symbol_new_in` in that package.
pub record Symbols : Type 0 where
  pub symbol_p : ℕ → Bool
  pub in_keyword_package : ℕ → Bool
  pub name : ℕ → List ℕ
  pub keyword : List ℕ → ℕ

-- The names of the markers.
abbrev pub optional_name : List ℕ
optional_name = 0x6f ∷ 0x70 ∷ 0x74 ∷ 0x69 ∷ 0x6f ∷ 0x6e ∷ 0x61 ∷ 0x6c ∷ []

abbrev pub key_name : List ℕ
key_name = 0x6b ∷ 0x65 ∷ 0x79 ∷ []

abbrev pub rest_name : List ℕ
rest_name = 0x72 ∷ 0x65 ∷ 0x73 ∷ 0x74 ∷ []

-- The messages of the three errors of `defaultable_parameter_name`.
pub record Messages : Type 0 where
  pub type_error : Error
  pub name_error : Error
  pub default_error : Error

abbrev pub keyword_messages : Messages
keyword_messages = record {
  type_error = Error.keyword_parameter_shape;
  name_error = Error.keyword_name_must_be_symbol;
  default_error = Error.keyword_default_shape;
}

abbrev pub optional_messages : Messages
optional_messages = record {
  type_error = Error.optional_parameter_shape;
  name_error = Error.optional_name_must_be_symbol;
  default_error = Error.optional_default_shape;
}

-- `defaultable_parameter_default_expression`, of a parameter that has a name
unfoldable pub default_expression : Value → Value
default_expression nil = nil
default_expression (atom n) = nil
default_expression (pair a nil) = nil
default_expression (pair a (atom n)) = nil
default_expression (pair a (pair b d)) = b

-- The kinds of parameter that the body of the loop tells apart.
pub data Kind : Type 0 where
  optional_marker key_marker rest_marker plain : Kind

module _ (symbols : Symbols) where
  -- `LT_Symbol_p`, with the word of the symbol
  abbrev pub symbol_word : Value → Option ℕ
  symbol_word nil = none
  symbol_word (pair a d) = none
  symbol_word (atom n) = if symbols.symbol_p n then some n else none

  abbrev pub keyword_p : ℕ → Bool
  keyword_p n = symbols.symbol_p n && symbols.in_keyword_package n

  unfoldable pub keyword_marker_p : Value → List ℕ → Bool
  keyword_marker_p nil name = false
  keyword_marker_p (pair a d) name = false
  keyword_marker_p (atom n) name = keyword_p n && str_eq (symbols.name n) name

  unfoldable pub kind_of : Value → Kind
  unfolding keyword_marker_p
  kind_of parameter =
      if keyword_marker_p parameter optional_name
      then Kind.optional_marker
      else if keyword_marker_p parameter key_name
      then Kind.key_marker
      else if keyword_marker_p parameter rest_name
      then Kind.rest_marker
      else Kind.plain

  -- `keyword_for_parameter`, of a symbol
  abbrev pub keyword_for_parameter : ℕ → ℕ
  keyword_for_parameter parameter = symbols.keyword (symbols.name parameter)

  -- Whether a list has one element.
  abbrev pub single_p : Value → Bool
  single_p nil = false
  single_p (atom n) = false
  single_p (pair a nil) = true
  single_p (pair a (atom n)) = false
  single_p (pair a (pair b d)) = false

  unfoldable pub defaultable_parameter_name : Messages → Value → Result ℕ
  defaultable_parameter_name messages nil = error messages.type_error
  defaultable_parameter_name messages (atom n) =
      if symbols.symbol_p n then ok n else error messages.type_error
  defaultable_parameter_name messages (pair name tail) = elim (symbol_word name) [
    | none ↦ error messages.name_error
    | some n ↦ if single_p tail then ok n else error messages.default_error
  ]

  -- The keyword at a place of an argument list, or the error that is raised there.
  unfoldable pub supplied_keyword : Value → Result ℕ
  supplied_keyword nil = error Error.keyword_argument_must_be_keyword
  supplied_keyword (pair a d) = error Error.keyword_argument_must_be_keyword
  supplied_keyword (atom n) =
      if keyword_p n then ok n else error Error.keyword_argument_must_be_keyword

  -- `keyword_argument_lookup`; `none` is the result 0.
  unfoldable pub keyword_argument_lookup : Value → ℕ → Result (Option Value)
  unfolding supplied_keyword
  keyword_argument_lookup nil keyword = ok none
  keyword_argument_lookup (atom n) keyword = error Error.keyword_arguments_must_be_proper
  keyword_argument_lookup (pair supplied nil) keyword = elim (supplied_keyword supplied) [
    | error e ↦ error e
    | ok k ↦ error Error.keyword_argument_missing_value
  ]
  keyword_argument_lookup (pair supplied (atom n)) keyword = elim (supplied_keyword supplied) [
    | error e ↦ error e
    | ok k ↦ error Error.keyword_argument_missing_value
  ]
  keyword_argument_lookup (pair supplied (pair value cursor)) keyword =
      elim (supplied_keyword supplied) [
        | error e ↦ error e
        | ok k ↦ elim (k == keyword) [
          | true ↦ ok (some value)
          | false ↦ keyword_argument_lookup cursor keyword
        ]
      ]

  -- The inner loop of `ensure_no_unknown_keyword_arguments`: `found`
  unfoldable pub keyword_known : ℕ → Value → Result Bool
  unfolding defaultable_parameter_name
  keyword_known supplied nil = ok false
  keyword_known supplied (atom n) = ok false
  keyword_known supplied (pair parameter cursor) =
      elim (defaultable_parameter_name keyword_messages parameter) [
        | error e ↦ error e
        | ok name ↦ elim (supplied == keyword_for_parameter name) [
          | true ↦ ok true
          | false ↦ keyword_known supplied cursor
        ]
      ]

  -- `ensure_no_unknown_keyword_arguments`
  unfoldable pub ensure_no_unknown : Value → Value → Result Unit
  unfolding supplied_keyword keyword_known
  ensure_no_unknown nil parameters = ok tt
  ensure_no_unknown (atom n) parameters = error Error.keyword_arguments_must_be_proper
  ensure_no_unknown (pair supplied nil) parameters = elim (supplied_keyword supplied) [
    | error e ↦ error e
    | ok k ↦ error Error.keyword_argument_missing_value
  ]
  ensure_no_unknown (pair supplied (atom n)) parameters = elim (supplied_keyword supplied) [
    | error e ↦ error e
    | ok k ↦ error Error.keyword_argument_missing_value
  ]
  ensure_no_unknown (pair supplied (pair value cursor)) parameters =
      elim (supplied_keyword supplied) [
        | error e ↦ error e
        | ok k ↦ elim (keyword_known k parameters) [
          | error e ↦ error e
          | ok false ↦ error Error.unknown_keyword_argument
          | ok true ↦ ensure_no_unknown cursor parameters
        ]
      ]
