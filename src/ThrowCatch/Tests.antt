-- ===== src/ThrowCatch/Tests.antt =====
-- A throw through two cleanups, and one without a catch.
use list_talk.Common.{[], ◌∷◌, ◌≡◌, refl}
use list_talk.ThrowCatch.{
  Code, effect, sequence, catch, unwind_protect, throw, running, finished, failed, step, steps,
  jump, throw_to, resume, has_matching_tag,
}
use list_talk.ThrowCatch.Denotation.{meaning}
use list_talk.ThrowCatch.Unwind.{Reaches, running-Reaches}

abbrev two_cleanups : Code
two_cleanups = catch 1 (
    unwind_protect (catch 2 (unwind_protect (sequence (effect 10) (throw 1 7)) (effect 11)))
      (effect 12))

two_cleanups_run : steps 20 (running two_cleanups [] [] []) ≡ finished 7 [] [] (10 ∷ 11 ∷ 12 ∷ [])
unfolding steps step jump throw_to resume has_matching_tag
two_cleanups_run = refl

no_catch_run : steps 3 (running (unwind_protect (throw 1 7) (effect 11)) [] [] []) ≡ failed []
unfolding steps step jump throw_to resume has_matching_tag
no_catch_run = refl

running-Reaches_example :
    Reaches (running two_cleanups [] [] []) (finished 7 [] [] (10 ∷ 11 ∷ 12 ∷ []))
unfolding meaning
running-Reaches_example = running-Reaches two_cleanups [] [] []
