-- ===== src/MessageQueue/Tests.antt =====
-- Runs of the queue, and its theorems at concrete queues.
use list_talk.Common.{ℕ, ◌+◌, ◌≡◌, refl, true, some, List, [], ◌∷◌, arith, get_or-replicate}
use list_talk.MessageQueue.{
  MessageQueue, next_index, enqueue, dequeue, size, empty_p, full_p, new_named, put, try_put, get,
  try_get,
}
use list_talk.MessageQueue.Contents.{IsValid, contents, window, wrap}
use list_talk.MessageQueue.Fifo.{
  Call, Reply, answer_put, answer_get, perform, run, specify, run_list, Agrees, perform-Agrees,
  run_refines,
}

functions : Unit {0}
unfolding next_index enqueue dequeue size empty_p full_p new_named put try_put get try_get
    answer_put answer_get perform run contents window
functions = tt

-- A queue of three places, its head at the last one.
abbrev late : MessageQueue ℕ
late = record { capacity = 3; head = 2; tail = 2; count = 0; items = 0 ∷ 0 ∷ 0 ∷ [] }

late_IsValid : IsValid 0 late
late_IsValid = record {
  room = omega arith;
  width = refl;
  head_in = omega arith;
  fits = omega arith;
  tail_at = refl;
  cleared = λ o lo hi. get_or-replicate 3 (wrap 3 (2 + o)) 0;
}

-- Four puts, of which the last waits, then two gets, across the end of the array.
abbrev calls : List (Call ℕ)
calls =
    Call.put 5
    ∷ Call.put 6
    ∷ Call.try_put true 7
    ∷ Call.put 8
    ∷ Call.full_of
    ∷ Call.get
    ∷ Call.try_get true
    ∷ Call.size_of
    ∷ []

answers :
    run 0 late calls
    ≡ Reply.done
      ∷ Reply.done
      ∷ Reply.flag true
      ∷ Reply.waits
      ∷ Reply.flag true
      ∷ Reply.value 5
      ∷ Reply.optional (some 6)
      ∷ Reply.number 1
      ∷ []
unfolding functions
answers = refl

run_refines_example : run 0 late calls ≡ run_list 3 [] calls
unfolding contents window
run_refines_example = run_refines 0 late calls late_IsValid

perform-Agrees_example :
    Agrees 0 late (perform 0 late (Call.try_put true 4)) (specify 3 [] (Call.try_put true 4))
unfolding contents window
perform-Agrees_example = perform-Agrees 0 late late_IsValid (Call.try_put true 4)

abbrev four : ℕ
four = 4

abbrev nothing : ℕ
nothing = 0
