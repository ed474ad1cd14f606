-- ===== src/Closure/Keywords.antt =====
-- The keyword arguments of a closure (src/vm/eval.c).
use list_talk.Common.{
  ℕ, Bool, true, false, ◌&&◌, ==_iff, List, [], ◌∷◌, Option, none, some, ◌==◌, ◌≡◌, refl, ◌∙◌, ap,
  if◌then◌else◌, All, Bool-cases, inl, inr, ◌⊎◌,
}
use mathlib.Core.Path.{ap₂}
use list_talk.ListOps.{Value, nil, pair, atom, Error, Result, ok, error}
use list_talk.Closure.{
  Symbols, keyword_p, supplied_keyword, keyword_argument_lookup, keyword_known, ensure_no_unknown,
  defaultable_parameter_name, keyword_messages,
}

-- Keywords, each with its value behind it.
abbrev pub keyword_list : List (ℕ × Value) → Value
keyword_list [] = nil
keyword_list ((k, v) ∷ keywords) = pair (atom k) (pair v (keyword_list keywords))

-- The first value of a keyword.
abbrev pub value_of : ℕ → List (ℕ × Value) → Option Value
value_of keyword [] = none
value_of keyword ((k, v) ∷ keywords) =
    let rest = value_of keyword keywords in if k == keyword then some v else rest

abbrev pub Result-cases :
    {A : Type 0} → (r : Result A) → ((a : A) × (r ≡ ok a)) ⊎ ((e : Error) × (r ≡ error e))
Result-cases (ok a) = inl (a, refl)
Result-cases (error e) = inr (e, refl)

module _ (symbols : Symbols) where
  -- One of the parameters has a name, and the word is the keyword of that name.
  pub data Names (k : ℕ) : Value → Type 0 where
    here :
        (parameter cursor : Value) (name : ℕ)
        → defaultable_parameter_name symbols keyword_messages parameter ≡ ok name
        → k ≡ symbols.keyword (symbols.name name)
        → Names k (pair parameter cursor)
    later : (parameter cursor : Value) → Names k cursor → Names k (pair parameter cursor)

  -- A keyword that one of the parameters stands for.
  abbrev pub IsKnown : Value → ℕ → Type 0
  IsKnown parameters k =
      ((symbols.symbol_p k ≡ true) × (symbols.in_keyword_package k ≡ true)) × Names k parameters

  keyword_known-Names :
      (k : ℕ) (parameters : Value)
      → keyword_known symbols k parameters ≡ ok true
      → Names k parameters
  unfolding keyword_known
  keyword_known-Names k nil h = absurd cc
  keyword_known-Names k (atom n) h = absurd cc
  keyword_known-Names k (pair parameter cursor) h =
      elim (Result-cases (defaultable_parameter_name symbols keyword_messages parameter)) [
        | inl (name, e) ↦ elim (Bool-cases (k == symbols.keyword (symbols.name name))) [
          | inl same ↦
              here parameter cursor name e ((==_iff k (symbols.keyword (symbols.name name))).0 same)
          | inr other ↦
              later parameter cursor
                (keyword_known-Names k cursor (rw (e, other, keyword_known) at h))
        ]
        | inr (x, e) ↦ let failed : error x ≡ ok true = rw (e, keyword_known) at h in absurd cc
      ]

  both_true : (a b : Bool) → (a && b) ≡ true → (a ≡ true) × (b ≡ true)
  both_true true b h = (refl, h)
  both_true false b h = absurd cc

  supplied_keyword_ok :
      (supplied : Value) (k : ℕ)
      → supplied_keyword symbols supplied ≡ ok k
      → (supplied ≡ atom k) × (keyword_p symbols k ≡ true)
  unfolding supplied_keyword
  supplied_keyword_ok nil k h = absurd cc
  supplied_keyword_ok (pair a d) k h = absurd cc
  supplied_keyword_ok (atom n) k h = elim (Bool-cases (keyword_p symbols n)) [
    | inl e ↦
        let found : ok n ≡ ok k = rw e at h in
        let same : n ≡ k = cc in (ap (λ x. atom x) same, rw same at e)
    | inr e ↦
        let failed : error Error.keyword_argument_must_be_keyword ≡ ok k = rw e at h in absurd cc
  ]

  -- What a lookup does in an argument list that passed the test.
  pub record Keywords (arguments parameters : Value) : Type 0 where
    pub keywords : List (ℕ × Value)
    pub listed : arguments ≡ keyword_list keywords
    pub known : All (λ (p : ℕ × Value). IsKnown parameters p.0) keywords

  pub keyword_argument_lookup_lem :
      (parameters : Value) (keywords : List (ℕ × Value)) (k : ℕ)
      → All (λ (p : ℕ × Value). IsKnown parameters p.0) keywords
      → keyword_argument_lookup symbols (keyword_list keywords) k ≡ ok (value_of k keywords)
  unfolding keyword_argument_lookup supplied_keyword
  keyword_argument_lookup_lem parameters [] k h = refl
  keyword_argument_lookup_lem parameters ((x, v) ∷ keywords) k (((hs, hp), hf), h) =
      let hk : keyword_p symbols x ≡ true = rw (hs, hp) refl in
      let rest = keyword_argument_lookup_lem parameters keywords k h in
      elim (Bool-cases (x == k)) [
        | inl e ↦ rw (hk, keyword_argument_lookup, e) refl
        | inr e ↦ rw (hk, keyword_argument_lookup, e) rest
      ]

  pub ensure_no_unknown-Keywords :
      (arguments parameters : Value)
      → ensure_no_unknown symbols arguments parameters ≡ ok tt
      → Keywords arguments parameters
  unfolding ensure_no_unknown
  ensure_no_unknown-Keywords nil parameters h = record { keywords = []; listed = refl; known = tt }
  ensure_no_unknown-Keywords (atom n) parameters h = absurd cc
  ensure_no_unknown-Keywords (pair supplied nil) parameters h =
      elim (Result-cases (supplied_keyword symbols supplied)) [
        | inl (k, e) ↦
            let failed : error Error.keyword_argument_missing_value ≡ ok tt =
              rw (e, ensure_no_unknown) at h in
            absurd cc
        | inr (x, e) ↦ let failed : error x ≡ ok tt = rw (e, ensure_no_unknown) at h in absurd cc
      ]
  ensure_no_unknown-Keywords (pair supplied (atom n)) parameters h =
      elim (Result-cases (supplied_keyword symbols supplied)) [
        | inl (k, e) ↦
            let failed : error Error.keyword_argument_missing_value ≡ ok tt =
              rw (e, ensure_no_unknown) at h in
            absurd cc
        | inr (x, e) ↦ let failed : error x ≡ ok tt = rw (e, ensure_no_unknown) at h in absurd cc
      ]
  ensure_no_unknown-Keywords (pair supplied (pair value cursor)) parameters h =
      elim (Result-cases (supplied_keyword symbols supplied)) [
        | inl (k, e) ↦
            let (shape, keyword) = supplied_keyword_ok supplied k e in
            elim (Result-cases (keyword_known symbols k parameters)) [
              | inl (false, f) ↦
                  let failed : error Error.unknown_keyword_argument ≡ ok tt =
                    rw (e, f, ensure_no_unknown) at h in
                  absurd cc
              | inl (true, f) ↦
                  let rest =
                    ensure_no_unknown-Keywords cursor parameters
                      (rw (e, f, ensure_no_unknown) at h) in
                  record {
                    keywords = (k, value) ∷ rest.keywords;
                    listed = ap₂ (λ x y. pair x (pair value y)) shape rest.listed;
                    known = (
                      (
                        both_true (symbols.symbol_p k) (symbols.in_keyword_package k) keyword,
                        keyword_known-Names k parameters f,
                      ),
                      rest.known,
                    );
                  }
              | inr (x, f) ↦
                  let failed : error x ≡ ok tt = rw (e, f, ensure_no_unknown) at h in absurd cc
            ]
        | inr (x, e) ↦ let failed : error x ≡ ok tt = rw (e, ensure_no_unknown) at h in absurd cc
      ]

  -- Arguments that pass the test of `ensure_no_unknown_keyword_arguments` are pairs of a keyword, the
  -- one of the name of a parameter, and a value, and `keyword_argument_lookup` then raises no error: it gives the
  -- first value of the keyword, or none.
  pub ensured-Keywords :
      (arguments parameters : Value)
      → ensure_no_unknown symbols arguments parameters ≡ ok tt
      → (ks : Keywords arguments parameters) × ((k : ℕ)
          → keyword_argument_lookup symbols arguments k ≡ ok (value_of k ks.keywords))
  ensured-Keywords arguments parameters h =
      let ks = ensure_no_unknown-Keywords arguments parameters h in
      (
        ks,
        λ k.
            ap (λ a. keyword_argument_lookup symbols a k) ks.listed
            ∙ keyword_argument_lookup_lem parameters ks.keywords k ks.known,
      )
