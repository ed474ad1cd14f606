-- ===== src/ThrowCatch.antt =====
-- src/vm/throw_catch.c and ListTalk/vm/throw_catch.h: the non-local exits.
-- The code that the macros stand around is a small language: an effect, a sequence, and the
-- macros and `LT_throw` themselves. A machine runs it with the C stack and the frames as lists.
pub mod Denotation
pub mod Known
pub mod Unwind
mod Tests
use list_talk.Common.{
  ℕ, zero, suc, Bool, true, false, not, ◌&&◌, ◌||◌, List, [], ◌∷◌, ◌++◌, ◌==◌, if◌then◌else◌,
}

-- Tags and values are numbered. `effect n` leaves n in the trace and has the value n; a sequence
-- has the value of its second part.
pub data Code : Type 0 where
  effect : ℕ → Code
  sequence : Code → Code → Code
  catch : ℕ → Code → Code
  unwind_protect : Code → Code → Code
  throw : ℕ → ℕ → Code

-- What the C functions under the running code have left to do.
pub data Pending : Type 0 where
  continue_with : Code → Pending
  leave_catch : Pending
  leave_protected : Code → Pending
  keep_value : ℕ → Pending
  rethrow : ℕ → ℕ → Pending

-- Where `siglongjmp` lands: in the else branch of `LT_CATCH` or of `LT_UNWIND_PROTECT`.
pub data Landing : Type 0 where
  caught : Landing
  clean_up : Code → Landing

-- `LT_ThrowCatchFrame`: the jump buffer is the landing and the C stack around the macro.
pub record Frame : Type 0 where
  pub tag : ℕ
  pub is_unwind_protect : Bool
  pub landing : Landing
  pub stack : List Pending

-- The thread: running code, past some code with its value, behind a jump with the tag and the
-- value that were thrown, or in `LT_error`. The last list is the trace of the effects.
pub data State : Type 0 where
  running : Code → List Pending → List Frame → List ℕ → State
  finished : ℕ → List Pending → List Frame → List ℕ → State
  jumped : ℕ → ℕ → Frame → List Frame → List ℕ → State
  failed : List ℕ → State

-- `LT_NIL`, the tag of the frame of `LT_UNWIND_PROTECT`, which no throw compares with.
abbrev pub nil_tag : ℕ
nil_tag = 0

abbrev pub catch_frame : ℕ → List Pending → Frame
catch_frame tag stack = record {
  tag = tag;
  is_unwind_protect = false;
  landing = caught;
  stack = stack;
}

abbrev pub protect_frame : Code → List Pending → Frame
protect_frame cleanup stack = record {
  tag = nil_tag;
  is_unwind_protect = true;
  landing = clean_up cleanup;
  stack = stack;
}

-- The first loop of `LT_throw`.
unfoldable pub has_matching_tag : ℕ → List Frame → Bool
has_matching_tag tag [] = false
has_matching_tag tag (frame ∷ frames) =
    (not frame.is_unwind_protect && (frame.tag == tag)) || has_matching_tag tag frames

-- The second loop of `LT_throw`: the stack of frames is left as it is, and the frame that is
-- jumped to stands on top of its previous ones.
unfoldable pub jump : ℕ → ℕ → List Frame → List ℕ → State
jump tag value [] trace = failed trace
jump tag value (frame ∷ frames) trace =
    let further = jump tag value frames trace in
    if frame.is_unwind_protect || (frame.tag == tag)
    then jumped tag value frame frames trace
    else further

-- `LT_throw`
unfoldable pub throw_to : ℕ → ℕ → List Frame → List ℕ → State
throw_to tag value frames trace =
    if not (has_matching_tag tag frames) then failed trace else jump tag value frames trace

-- The end of `LT_CATCH` and `LT_UNWIND_PROTECT`, which set the stack of frames back.
abbrev pub previous : List Frame → List Frame
previous [] = []
previous (frame ∷ frames) = frames

-- What follows the code that has finished.
unfoldable pub resume : ℕ → List Pending → List Frame → List ℕ → State
resume value [] frames trace = finished value [] frames trace
resume value (continue_with code ∷ stack) frames trace = running code stack frames trace
resume value (leave_catch ∷ stack) frames trace = finished value stack (previous frames) trace
resume value (leave_protected cleanup ∷ stack) frames trace =
    running cleanup (keep_value value ∷ stack) (previous frames) trace
resume value (keep_value kept ∷ stack) frames trace = finished kept stack frames trace
resume value (rethrow tag thrown ∷ stack) frames trace = throw_to tag thrown frames trace

-- The else branches of the macros.
abbrev pub land : Landing → ℕ → ℕ → List Pending → List Frame → List ℕ → State
land caught tag value stack frames trace = finished value stack frames trace
land (clean_up cleanup) tag value stack frames trace =
    running cleanup (rethrow tag value ∷ stack) frames trace

unfoldable pub step : State → State
step (running (effect n) stack frames trace) = finished n stack frames (trace ++ (n ∷ []))
step (running (sequence first second) stack frames trace) =
    running first (continue_with second ∷ stack) frames trace
step (running (catch tag body) stack frames trace) =
    running body (leave_catch ∷ stack) (catch_frame tag stack ∷ frames) trace
step (running (unwind_protect body cleanup) stack frames trace) =
    running body (leave_protected cleanup ∷ stack) (protect_frame cleanup stack ∷ frames) trace
step (running (throw tag value) stack frames trace) = throw_to tag value frames trace
step (finished value stack frames trace) = resume value stack frames trace
step (jumped tag value frame frames trace) = land frame.landing tag value frame.stack frames trace
step (failed trace) = failed trace

unfoldable pub steps : ℕ → State → State
steps zero state = state
steps (suc n) state = steps n (step state)
