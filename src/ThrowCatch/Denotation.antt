-- ===== src/ThrowCatch/Denotation.antt =====
-- What code with non-local exits (src/vm/throw_catch.c) means, without frames and jumps: the effects it has, in order, and
-- how it ends, by its structure.
use list_talk.Common.{ℕ, Bool, false, ◌||◌, List, [], ◌∷◌, ◌++◌, ◌==◌, if◌then◌else◌}
use list_talk.ThrowCatch.{Code, effect, sequence, catch, unwind_protect, throw}

-- Code gives a value, throws to a tag around it, or is in an error that nothing unwinds.
pub data Exit : Type 0 where
  gives : ℕ → Exit
  throws : ℕ → ℕ → Exit
  uncaught : Exit

abbrev pub Meaning : Type 0
Meaning = List ℕ × Exit

abbrev pub mentions : ℕ → List ℕ → Bool
mentions tag [] = false
mentions tag (t ∷ tags) = (t == tag) || mentions tag tags

-- The second part happens when the first gives a value.
abbrev pub and_then : Meaning → Meaning → Meaning
and_then (effects, gives value) second = (effects ++ second.0, second.1)
and_then (effects, throws tag value) second = (effects, throws tag value)
and_then (effects, uncaught) second = (effects, uncaught)

-- A throw to the tag becomes the value.
abbrev pub catching : ℕ → Meaning → Meaning
catching tag (effects, gives value) = (effects, gives value)
catching tag (effects, throws thrown value) =
    if tag == thrown then (effects, gives value) else (effects, throws thrown value)
catching tag (effects, uncaught) = (effects, uncaught)

-- The body's end stands unless the cleanup has another.
abbrev pub cleaned : Exit → Exit → Exit
cleaned body (gives value) = body
cleaned body (throws tag value) = throws tag value
cleaned body uncaught = uncaught

-- The cleanup happens whether the body gives a value or throws.
abbrev pub protecting : Meaning → Meaning → Meaning
protecting (effects, gives value) cleanup = (effects ++ cleanup.0, cleaned (gives value) cleanup.1)
protecting (effects, throws tag value) cleanup =
    (effects ++ cleanup.0, cleaned (throws tag value) cleanup.1)
protecting (effects, uncaught) cleanup = (effects, uncaught)

-- The meaning of code within catches of the tags.
unfoldable pub meaning : Code → List ℕ → Meaning
meaning (effect n) tags = (n ∷ [], gives n)
meaning (sequence first second) tags = and_then (meaning first tags) (meaning second tags)
meaning (catch tag body) tags = catching tag (meaning body (tag ∷ tags))
meaning (unwind_protect body cleanup) tags = protecting (meaning body tags) (meaning cleanup tags)
meaning (throw tag value) tags = ([], if mentions tag tags then throws tag value else uncaught)
