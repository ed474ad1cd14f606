-- ===== src/Precedence/Methods.antt =====
-- Method lookup along a precedence list: `LT_Class_lookup_method_with_next` of src/classes/Class.c
-- and the loop of `send_from_precedence` of src/vm/eval.c.
-- A dictionary of methods is the hash table of Hash with `LT_pointer_hash`, as
-- src/classes/IdentityDictionary.c lays it out; the value `none` is a null pointer.
use list_talk.Common.{
  ℕ, Bool, true, false, List, [], ◌∷◌, ◌++◌, Option, none, some, ◌==◌, ◌≡◌, refl, ◌∙◌,
  if◌then◌else◌, Option-cases, All, inl, inr,
}
use list_talk.Hash.{InlineHash, init, at, at_put}
use list_talk.Hash.Keys.{pointer_key}

abbrev pub Dictionary : Type 0
Dictionary = InlineHash ℕ (Option ℕ)

-- The method cache of a class, with the epoch in which it was made.
pub record Cache : Type 0 where
  pub entries : Dictionary
  pub epoch : ℕ

-- What a lookup answers: the method, `none` being `LT_INVALID`, and the list behind its class.
pub record MethodFound : Type 0 where
  pub method : Option ℕ
  pub next : List ℕ

module _ (methods : ℕ → Dictionary) (selector : ℕ) where
  -- The loop over the precedence list, with the cache after it.
  unfoldable pub lookup_loop : Bool → Dictionary → List ℕ → MethodFound × Dictionary
  lookup_loop cached cache [] = (record { method = none; next = [] }, cache)
  lookup_loop cached cache (current ∷ rest) = elim (at none (methods current) selector) [
    | some method ↦ (
      record { method = some method; next = rest },
      if cached then cache else at_put cache selector (some method),
    )
    | none ↦ lookup_loop cached cache rest
  ]

  abbrev pub cached_p : Option ℕ → Bool
  cached_p none = false
  cached_p (some method) = true

  -- `LT_Class_lookup_method_with_next`, of a selector that is a symbol; `epoch` is `LT__ilc_epoch`.
  unfoldable pub lookup_method_with_next : ℕ → Cache → List ℕ → MethodFound × Cache
  unfolding lookup_loop
  lookup_method_with_next epoch cache precedence =
      let entries : Dictionary = if cache.epoch == epoch then cache.entries else init in
      let done = lookup_loop (cached_p (at none entries selector)) entries precedence in
      (done.0, record { entries = done.1; epoch = epoch })

  -- The loop of `send_from_precedence`: the method that is applied, or none for
  -- `send_does_not_understand`, and the list that it is given.
  unfoldable pub send_loop : List ℕ → MethodFound
  send_loop [] = record { method = none; next = [] }
  send_loop (current ∷ rest) = elim (at none (methods current) selector) [
    | some method ↦ record { method = some method; next = rest }
    | none ↦ send_loop rest
  ]

  lookup_loop-send_loop :
      (cached : Bool) (cache : Dictionary) (precedence : List ℕ)
      → (lookup_loop cached cache precedence).0 ≡ send_loop precedence
  unfolding lookup_loop send_loop
  lookup_loop-send_loop cached cache [] = refl
  lookup_loop-send_loop cached cache (current ∷ rest) =
      elim (Option-cases (at none (methods current) selector)) [
        | inl e ↦ rw (e, lookup_loop, send_loop) (lookup_loop-send_loop cached cache rest)
        | inr (m, e) ↦ rw (e, lookup_loop, send_loop) refl
      ]

  send_loop_skips :
      (before rest : List ℕ)
      → All (λ c. at none (methods c) selector ≡ none) before
      → send_loop (before ++ rest) ≡ send_loop rest
  unfolding send_loop
  send_loop_skips [] rest h = refl
  send_loop_skips (c ∷ before) rest (e, h) = rw (e, send_loop) (send_loop_skips before rest h)

  -- Whatever the cache of the class holds, `LT_Class_lookup_method_with_next` passes over the classes
  -- that have no method of their own for the selector, and answers for the rest of the precedence
  -- list what the loop of `send_from_precedence` finds in it.
  pub lookup_method_with_next-send_loop :
      (epoch : ℕ) (cache : Cache) (before rest : List ℕ)
      → All (λ c. at none (methods c) selector ≡ none) before
      → (lookup_method_with_next epoch cache (before ++ rest)).0 ≡ send_loop rest
  unfolding lookup_method_with_next
  lookup_method_with_next-send_loop epoch cache before rest h =
      let entries : Dictionary = if cache.epoch == epoch then cache.entries else init in
      lookup_loop-send_loop (cached_p (at none entries selector)) entries (before ++ rest)
      ∙ send_loop_skips before rest h
