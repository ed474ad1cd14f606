-- ===== src/Quasiquote/Fill.antt =====
-- A template list with values to fill in.
use list_talk.Common.{ℕ, false, Option, List, [], ◌∷◌, ◌++◌}
use list_talk.ListOps.{Value, nil, pair, atom, Result, ok, error, from_list}
use list_talk.ListOps.Iteration.{Outcome, bind}
use list_talk.Quasiquote.{Operator, splice_items, QuasiquoteResult}
use list_talk.Quasiquote.Inert.{Place, Inert}

-- An element of a template list: a value to keep, one to put in, or a list to splice in.
pub data Piece : Type 0 where
  constant unquoted spliced : Value → Piece

module _ (named : ℕ → Option Operator) (unquote_word splicing_word : ℕ) where
  abbrev pub form : Piece → Value
  form (constant v) = v
  form (unquoted e) = pair (atom unquote_word) (pair e nil)
  form (spliced e) = pair (atom splicing_word) (pair e nil)

  abbrev pub forms : List Piece → List Value
  forms [] = []
  forms (p ∷ ps) = form p ∷ forms ps

  abbrev pub IsInertPiece : Piece → Type 0
  IsInertPiece (constant v) = Inert named Place.template 1 v
  IsInertPiece (unquoted e) = Unit
  IsInertPiece (spliced e) = Unit

  abbrev pub AreInert : List Piece → Type 0
  AreInert [] = Unit
  AreInert (p ∷ ps) = IsInertPiece p × AreInert ps

  module _ {S : Type 0} (eval : Value → S → Outcome S Value) where
    abbrev pub spliced_in :
        Result (List Value) → (S → Outcome S (List Value)) → S → Outcome S (List Value)
    spliced_in (ok values) rest s = bind (rest s) (λ vs. Outcome.returns (values ++ vs))
    spliced_in (error e) rest s = Outcome.raises e s

    -- The elements in order, each evaluated once, with the state of the evaluator passed on.
    unfoldable pub fill : List Piece → S → Outcome S (List Value)
    fill [] s = Outcome.returns [] s
    fill (constant v ∷ ps) s = bind (fill ps s) (λ vs. Outcome.returns (v ∷ vs))
    fill (unquoted e ∷ ps) s =
        bind (eval e s) (λ v s'. bind (fill ps s') (λ vs. Outcome.returns (v ∷ vs)))
    fill (spliced e ∷ ps) s = bind (eval e s) (λ v. spliced_in (splice_items v) (fill ps))

    -- The values behind those of the builder.
    abbrev finished : List Value → List Value → S → Outcome S QuasiquoteResult
    finished b vs = Outcome.returns (from_list (b ++ vs), false)
