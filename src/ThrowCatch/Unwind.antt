-- ===== src/ThrowCatch/Unwind.antt =====
-- The machine of src/vm/throw_catch.c and its macros against the meaning of the code.
use list_talk.Common.{
  ℕ, true, List, [], ◌∷◌, ◌++◌, ◌==◌, if◌then◌else◌, ◌≡◌, refl, ap, sym, Bool-cases, inl, inr,
}
use mathlib.Core.List.{append_assoc, append-nil}
use list_talk.ThrowCatch.{
  Code, effect, sequence, catch, unwind_protect, throw, Pending, continue_with, leave_catch,
  leave_protected, keep_value, rethrow, Frame, State, running, finished, jumped, failed,
  catch_frame, protect_frame, has_matching_tag, jump, throw_to, resume, step,
}
use list_talk.ThrowCatch.Known.{Known, meaning-Known}
use list_talk.ThrowCatch.Denotation.{
  Exit, gives, throws, uncaught, Meaning, mentions, and_then, catching, cleaned, protecting,
  meaning,
}

-- The machine gets from one state to another.
pub data Reaches : State → State → Type 0 where
  stop : (s : State) → Reaches s s
  next : (s t : State) → Reaches (step s) t → Reaches s t

Reaches_trans : (s t u : State) → Reaches s t → Reaches t u → Reaches s u
Reaches_trans _ _ u (stop s) k = k
Reaches_trans _ _ u (next s t h) k = next s u (Reaches_trans (step s) t u h k)

abbrev pub tags_of : List Frame → List ℕ
tags_of [] = []
tags_of (frame ∷ frames) =
    if frame.is_unwind_protect then tags_of frames else frame.tag ∷ tags_of frames

-- The state at the end of code with the meaning: behind it, or where `LT_throw` has jumped.
abbrev pub end_of : Meaning → List Pending → List Frame → List ℕ → State
end_of (effects, gives value) stack frames trace = finished value stack frames (trace ++ effects)
end_of (effects, throws tag value) stack frames trace = jump tag value frames (trace ++ effects)
end_of (effects, uncaught) stack frames trace = failed (trace ++ effects)

has_matching_tag-mentions :
    (tag : ℕ) (frames : List Frame) → has_matching_tag tag frames ≡ mentions tag (tags_of frames)
unfolding has_matching_tag
has_matching_tag-mentions tag [] = refl
has_matching_tag-mentions tag (frame ∷ frames) = elim (Bool-cases frame.is_unwind_protect) [
  | inl e ↦ rw e (has_matching_tag-mentions tag frames)
  | inr e ↦ rw (e, has_matching_tag-mentions tag frames) refl
]

module _ (stack : List Pending) (frames : List Frame) (trace : List ℕ) where
  end_later :
      (e f : List ℕ) (x : Exit)
      → end_of (f, x) stack frames (trace ++ e) ≡ end_of (e ++ f, x) stack frames trace
  end_later e f (gives v) = ap (finished v stack frames) (append_assoc trace e f)
  end_later e f (throws t v) = ap (jump t v frames) (append_assoc trace e f)
  end_later e f uncaught = ap failed (append_assoc trace e f)

  -- A throw that is known to arrive passes the first loop.
  throw_to-jump :
      (tag value : ℕ)
      → mentions tag (tags_of frames) ≡ true
      → throw_to tag value frames trace ≡ jump tag value frames trace
  unfolding throw_to
  throw_to-jump tag value h = rw (has_matching_tag-mentions tag frames, h) refl

-- What running the code does, whatever trace it starts with.
abbrev Runs : Code → Meaning → List Frame → Type 0
Runs code m frames =
    (stack : List Pending) (trace : List ℕ)
    → Reaches (running code stack frames trace) (end_of m stack frames trace)

module _ (stack : List Pending) (frames : List Frame) where
  end_of-and_then :
      (m n : Meaning) (second : Code) (trace : List ℕ)
      → Runs second n frames
      → Reaches
          (end_of m (continue_with second ∷ stack) frames trace)
          (end_of (and_then m n) stack frames trace)
  unfolding step resume
  end_of-and_then (e, gives v) (f, x) second trace h =
      next (finished v (continue_with second ∷ stack) frames (trace ++ e))
        (end_of (e ++ f, x) stack frames trace)
        (rw (← end_later stack frames trace e f x) (h stack (trace ++ e)))
  end_of-and_then (e, throws t v) n second trace h = stop (jump t v frames (trace ++ e))
  end_of-and_then (e, uncaught) n second trace h = stop (failed (trace ++ e))

  end_of-catching :
      (m : Meaning) (tag : ℕ) (trace : List ℕ)
      → Reaches
          (end_of m (leave_catch ∷ stack) (catch_frame tag stack ∷ frames) trace)
          (end_of (catching tag m) stack frames trace)
  unfolding step resume jump
  end_of-catching (e, gives v) tag trace =
      next (finished v (leave_catch ∷ stack) (catch_frame tag stack ∷ frames) (trace ++ e))
        (finished v stack frames (trace ++ e)) (stop (finished v stack frames (trace ++ e)))
  end_of-catching (e, throws t v) tag trace = elim (Bool-cases (tag == t)) [
    | inl c ↦ rw c (
        next (jumped t v (catch_frame tag stack) frames (trace ++ e))
          (finished v stack frames (trace ++ e)) (stop (finished v stack frames (trace ++ e))))
    | inr c ↦ rw c (stop (jump t v frames (trace ++ e)))
  ]
  end_of-catching (e, uncaught) tag trace = stop (failed (trace ++ e))

  -- After the cleanup the value is given again.
  end_kept :
      (e : List ℕ) (v : ℕ) (n : Meaning) (trace : List ℕ)
      → Reaches
          (end_of n (keep_value v ∷ stack) frames (trace ++ e))
          (end_of (e ++ n.0, cleaned (gives v) n.1) stack frames trace)
  unfolding step resume
  end_kept e v (f, gives w) trace = rw (← end_later stack frames trace e f (gives v)) (
      next (finished w (keep_value v ∷ stack) frames (trace ++ e ++ f))
        (finished v stack frames (trace ++ e ++ f))
        (stop (finished v stack frames (trace ++ e ++ f))))
  end_kept e v (f, throws t w) trace =
      rw (← end_later stack frames trace e f (throws t w))
        (stop (jump t w frames (trace ++ e ++ f)))
  end_kept e v (f, uncaught) trace =
      rw (← end_later stack frames trace e f uncaught) (stop (failed (trace ++ e ++ f)))

  -- After the cleanup the throw goes on.
  end_rethrown :
      (e : List ℕ) (t v : ℕ) (n : Meaning) (trace : List ℕ)
      → mentions t (tags_of frames) ≡ true
      → Reaches
          (end_of n (rethrow t v ∷ stack) frames (trace ++ e))
          (end_of (e ++ n.0, cleaned (throws t v) n.1) stack frames trace)
  unfolding step resume
  end_rethrown e t v (f, gives w) trace h = rw (← end_later stack frames trace e f (throws t v)) (
      next (finished w (rethrow t v ∷ stack) frames (trace ++ e ++ f))
        (jump t v frames (trace ++ e ++ f))
        (rw (throw_to-jump stack frames (trace ++ e ++ f) t v h)
          (stop (jump t v frames (trace ++ e ++ f)))))
  end_rethrown e t v (f, throws u w) trace h =
      rw (← end_later stack frames trace e f (throws u w))
        (stop (jump u w frames (trace ++ e ++ f)))
  end_rethrown e t v (f, uncaught) trace h =
      rw (← end_later stack frames trace e f uncaught) (stop (failed (trace ++ e ++ f)))

  end_of-protecting :
      (m n : Meaning) (cleanup : Code) (trace : List ℕ)
      → Runs cleanup n frames
      → Known m (tags_of frames)
      → Reaches
          (end_of m (leave_protected cleanup ∷ stack) (protect_frame cleanup stack ∷ frames) trace)
          (end_of (protecting m n) stack frames trace)
  unfolding step resume jump
  end_of-protecting (e, gives v) n cleanup trace h k =
      next
        (finished v (leave_protected cleanup ∷ stack) (protect_frame cleanup stack ∷ frames)
          (trace ++ e))
        (end_of (e ++ n.0, cleaned (gives v) n.1) stack frames trace)
        (Reaches_trans (running cleanup (keep_value v ∷ stack) frames (trace ++ e))
          (end_of n (keep_value v ∷ stack) frames (trace ++ e))
          (end_of (e ++ n.0, cleaned (gives v) n.1) stack frames trace)
          (h (keep_value v ∷ stack) (trace ++ e)) (end_kept e v n trace))
  end_of-protecting (e, throws t v) n cleanup trace h k =
      next (jumped t v (protect_frame cleanup stack) frames (trace ++ e))
        (end_of (e ++ n.0, cleaned (throws t v) n.1) stack frames trace)
        (Reaches_trans (running cleanup (rethrow t v ∷ stack) frames (trace ++ e))
          (end_of n (rethrow t v ∷ stack) frames (trace ++ e))
          (end_of (e ++ n.0, cleaned (throws t v) n.1) stack frames trace)
          (h (rethrow t v ∷ stack) (trace ++ e)) (end_rethrown e t v n trace k))
  end_of-protecting (e, uncaught) n cleanup trace h k = stop (failed (trace ++ e))

throw-Runs :
    (tag value : ℕ) (frames : List Frame) (stack : List Pending) (trace : List ℕ)
    → throw_to tag value frames trace
      ≡ end_of
          ([], if mentions tag (tags_of frames) then throws tag value else uncaught)
          stack
          frames
          trace
unfolding throw_to
throw-Runs tag value frames stack trace =
    rw (has_matching_tag-mentions tag frames) (elim (Bool-cases (mentions tag (tags_of frames))) [
      | inl e ↦ rw e (ap (jump tag value frames) (sym (append-nil trace)))
      | inr e ↦ rw e (ap failed (sym (append-nil trace)))
    ])

-- Under any C stack and any frames, the machine of `LT_CATCH`, `LT_UNWIND_PROTECT` and `LT_throw`
-- comes to the end that code means by its structure, with its effects in order: a throw to a tag
-- around it runs the cleanups between, the innermost first, and becomes the value of the innermost
-- catch of the tag; a throw without one is an error and runs no cleanup.
pub running-Reaches :
    (code : Code) (frames : List Frame) (stack : List Pending) (trace : List ℕ)
    → Reaches
        (running code stack frames trace)
        (end_of (meaning code (tags_of frames)) stack frames trace)
unfolding step meaning
running-Reaches (effect n) frames stack trace =
    next (running (effect n) stack frames trace) (finished n stack frames (trace ++ (n ∷ [])))
      (stop (finished n stack frames (trace ++ (n ∷ []))))
running-Reaches (sequence first second) frames stack trace =
    let m = meaning first (tags_of frames) in
    let n = meaning second (tags_of frames) in
    next (running (sequence first second) stack frames trace)
      (end_of (and_then m n) stack frames trace)
      (Reaches_trans (running first (continue_with second ∷ stack) frames trace)
        (end_of m (continue_with second ∷ stack) frames trace)
        (end_of (and_then m n) stack frames trace)
        (running-Reaches first frames (continue_with second ∷ stack) trace)
        (end_of-and_then stack frames m n second trace (running-Reaches second frames)))
running-Reaches (catch tag body) frames stack trace =
    let m = meaning body (tag ∷ tags_of frames) in
    let within = catch_frame tag stack ∷ frames in
    next (running (catch tag body) stack frames trace) (end_of (catching tag m) stack frames trace)
      (Reaches_trans (running body (leave_catch ∷ stack) within trace)
        (end_of m (leave_catch ∷ stack) within trace) (end_of (catching tag m) stack frames trace)
        (running-Reaches body within (leave_catch ∷ stack) trace)
        (end_of-catching stack frames m tag trace))
running-Reaches (unwind_protect body cleanup) frames stack trace =
    let m = meaning body (tags_of frames) in
    let n = meaning cleanup (tags_of frames) in
    let within = protect_frame cleanup stack ∷ frames in
    next (running (unwind_protect body cleanup) stack frames trace)
      (end_of (protecting m n) stack frames trace)
      (Reaches_trans (running body (leave_protected cleanup ∷ stack) within trace)
        (end_of m (leave_protected cleanup ∷ stack) within trace)
        (end_of (protecting m n) stack frames trace)
        (running-Reaches body within (leave_protected cleanup ∷ stack) trace)
        (end_of-protecting stack frames m n cleanup trace (running-Reaches cleanup frames)
          (meaning-Known body (tags_of frames))))
running-Reaches (throw tag value) frames stack trace =
    let m : Meaning = ([], if mentions tag (tags_of frames) then throws tag value else uncaught) in
    next (running (throw tag value) stack frames trace) (end_of m stack frames trace)
      (rw (throw-Runs tag value frames stack trace) (stop (end_of m stack frames trace)))
