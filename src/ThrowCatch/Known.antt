-- ===== src/ThrowCatch/Known.antt =====
-- The tags around code with non-local exits (src/vm/throw_catch.c) and the throws it may end with.
use list_talk.Common.{ℕ, true, List, [], ◌∷◌, ◌==◌, if◌then◌else◌, ◌≡◌, Bool-cases, inl, inr}
use list_talk.ThrowCatch.{Code, effect, sequence, catch, unwind_protect, throw}
use list_talk.ThrowCatch.Denotation.{
  gives, throws, uncaught, Meaning, mentions, and_then, catching, protecting, meaning,
}

abbrev pub Known : Meaning → List ℕ → Type 0
Known (effects, gives value) tags = Unit
Known (effects, throws tag value) tags = mentions tag tags ≡ true
Known (effects, uncaught) tags = Unit

and_then-Known :
    (m n : Meaning) (tags : List ℕ) → Known m tags → Known n tags → Known (and_then m n) tags
and_then-Known (e, gives v) (f, gives w) tags h k = tt
and_then-Known (e, gives v) (f, throws t w) tags h k = k
and_then-Known (e, gives v) (f, uncaught) tags h k = tt
and_then-Known (e, throws t v) n tags h k = h
and_then-Known (e, uncaught) n tags h k = tt

catching-Known :
    (tag : ℕ) (m : Meaning) (tags : List ℕ) → Known m (tag ∷ tags) → Known (catching tag m) tags
catching-Known tag (e, gives v) tags h = tt
catching-Known tag (e, throws t v) tags h = elim (Bool-cases (tag == t)) [
  | inl c ↦ rw c tt
  | inr c ↦ rw c (rw c at h)
]
catching-Known tag (e, uncaught) tags h = tt

protecting-Known :
    (m n : Meaning) (tags : List ℕ) → Known m tags → Known n tags → Known (protecting m n) tags
protecting-Known (e, gives v) (f, gives w) tags h k = tt
protecting-Known (e, gives v) (f, throws t w) tags h k = k
protecting-Known (e, gives v) (f, uncaught) tags h k = tt
protecting-Known (e, throws t v) (f, gives w) tags h k = h
protecting-Known (e, throws t v) (f, throws u w) tags h k = k
protecting-Known (e, throws t v) (f, uncaught) tags h k = tt
protecting-Known (e, uncaught) n tags h k = tt

throw-Known :
    (tag value : ℕ) (tags : List ℕ)
    → Known ([], if mentions tag tags then throws tag value else uncaught) tags
throw-Known tag value tags = elim (Bool-cases (mentions tag tags)) [
  | inl e ↦ rw e e
  | inr e ↦ rw e tt
]

pub meaning-Known : (code : Code) (tags : List ℕ) → Known (meaning code tags) tags
unfolding meaning
meaning-Known (effect n) tags = tt
meaning-Known (sequence first second) tags =
    and_then-Known (meaning first tags) (meaning second tags) tags (meaning-Known first tags)
      (meaning-Known second tags)
meaning-Known (catch tag body) tags =
    catching-Known tag (meaning body (tag ∷ tags)) tags (meaning-Known body (tag ∷ tags))
meaning-Known (unwind_protect body cleanup) tags =
    protecting-Known (meaning body tags) (meaning cleanup tags) tags (meaning-Known body tags)
      (meaning-Known cleanup tags)
meaning-Known (throw tag value) tags = throw-Known tag value tags
