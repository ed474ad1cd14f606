-- ===== src/MessageQueue/Fifo.antt =====
-- What the callers of a queue see, against a first-in first-out list of bounded length.
use list_talk.Common.{
  ℕ, ◌+◌, ◌/◌, ◌^◌, ◌≤◌, ◌<◌, ◌≡◌, refl, ap, ◌∙◌, Bool, true, false, ◌||◌, Option, none, some, List,
  [], ◌∷◌, ◌++◌, arith, ltb, ◌==◌, ◌⊎◌, ◌-◌, replicate, if◌then◌else◌, length, length-replicate,
  get_or-replicate, Bool-cases, inl, inr,
}
use mathlib.Core.Path.{ap₂}
use list_talk.MessageQueue
use list_talk.MessageQueue.{
  MessageQueue, next_index, enqueue, dequeue, size, empty_p, full_p, new_named,
}
use list_talk.MessageQueue.Contents.{
  IsValid, contents, window, wrap, length-window, enqueue-contents, dequeue-contents,
}

-- A call of one of the queue's methods. `true` and `false` say whether `LT_MutexWord_try_lock` got
-- the mutex.
pub data Call (V : Type 0) : Type 0 where
  put : V → Call V
  try_put : Bool → V → Call V
  get : Call V
  try_get : Bool → Call V
  size_of empty_of full_of : Call V

-- `waits` is a call that blocks: its thread makes it again when it is signalled.
pub data Reply (V : Type 0) : Type 0 where
  waits done : Reply V
  value : V → Reply V
  optional : Option V → Reply V
  flag : Bool → Reply V
  number : ℕ → Reply V

module _ {V : Type 0} where
  unfoldable pub answer_put : MessageQueue V → Option (MessageQueue V) → Reply V × MessageQueue V
  answer_put q none = (waits, q)
  answer_put q (some q') = (done, q')

  unfoldable pub answer_get :
      MessageQueue V → Option (V × MessageQueue V) → Reply V × MessageQueue V
  answer_get q none = (waits, q)
  answer_get q (some (v, q')) = (value v, q')

  -- One call on the queue of the program.
  unfoldable pub perform : V → MessageQueue V → Call V → Reply V × MessageQueue V
  unfolding answer_put answer_get
  perform nil q (put v) = answer_put q (MessageQueue.put q v)
  perform nil q (try_put locked v) = let r = MessageQueue.try_put locked q v in (flag r.0, r.1)
  perform nil q get = answer_get q (MessageQueue.get nil q)
  perform nil q (try_get locked) = let r = MessageQueue.try_get nil locked q in (optional r.0, r.1)
  perform nil q size_of = (number (size q), q)
  perform nil q empty_of = (flag (empty_p q), q)
  perform nil q full_of = (flag (full_p q), q)

  unfoldable pub run : V → MessageQueue V → List (Call V) → List (Reply V)
  run nil q [] = []
  run nil q (c ∷ cs) = let r = perform nil q c in r.0 ∷ run nil r.1 cs

  -- One call on a list of at most `cap` values, oldest first.
  abbrev pub push : ℕ → List V → V → Reply V → Reply V → Reply V × List V
  push cap l v full room = if length l == cap then (full, l) else (room, l ++ v ∷ [])

  abbrev pub pop : List V → Reply V → (V → Reply V) → Reply V × List V
  pop [] empty given = (empty, [])
  pop (v ∷ l) empty given = (given v, l)

  abbrev pub specify : ℕ → List V → Call V → Reply V × List V
  specify cap l (put v) = push cap l v waits done
  specify cap l (try_put true v) = push cap l v (flag false) (flag true)
  specify cap l (try_put false v) = (flag false, l)
  specify cap l get = pop l waits value
  specify cap l (try_get true) = pop l (optional none) (λ v. optional (some v))
  specify cap l (try_get false) = (optional none, l)
  specify cap l size_of = (number (length l), l)
  specify cap l empty_of = (flag (length l == 0), l)
  specify cap l full_of = (flag (length l == cap), l)

  abbrev pub run_list : ℕ → List V → List (Call V) → List (Reply V)
  run_list cap l [] = []
  run_list cap l (c ∷ cs) = let r = specify cap l c in r.0 ∷ run_list cap r.1 cs

module _ {V : Type 0} (nil : V) where
  length-contents : (q : MessageQueue V) → length (contents nil q) ≡ q.count
  unfolding contents
  length-contents q = length-window nil q.items q.capacity q.head 0 q.count

  contents-count_zero : (q : MessageQueue V) → q.count ≡ 0 → contents nil q ≡ []
  unfolding contents window
  contents-count_zero q e = ap (window nil q.items q.capacity q.head 0) e

  -- A call on a well-formed queue answers as the list does, and leaves a well-formed queue of the
  -- same capacity that holds the list's new values.
  pub record Agrees (q : MessageQueue V) (r : Reply V × MessageQueue V) (s : Reply V × List V)
      : Type 0 where
    pub reply : r.0 ≡ s.0
    pub valid : IsValid nil r.1
    pub held : contents nil r.1 ≡ s.1
    pub capacity : r.1.capacity ≡ q.capacity

  same_Agrees :
      (q : MessageQueue V) → IsValid nil q → (r : Reply V) → Agrees q (r, q) (r, contents nil q)
  same_Agrees q h r = record { reply = refl; valid = h; held = refl; capacity = refl }

  module _ (q : MessageQueue V) (h : IsValid nil q) where
    push_full :
        (v : V) (full room : Reply V)
        → (q.count == q.capacity) ≡ true
        → Agrees q (full, q) (push q.capacity (contents nil q) v full room)
    push_full v full room e = rw (length-contents q, e) (same_Agrees q h full)

    push_room :
        (v : V) (full room : Reply V)
        → (q.count == q.capacity) ≡ false
        → Agrees q (room, enqueue q v) (push q.capacity (contents nil q) v full room)
    push_room v full room e =
        let (valid, held) = enqueue-contents nil q h v (ground (arith, h.fits)) in
        rw (length-contents q, e)
          (record { reply = refl; valid = valid; held = held; capacity = unfold enqueue in refl })

    pop_empty :
        (empty : Reply V) (given : V → Reply V)
        → (q.count == 0) ≡ true
        → Agrees q (empty, q) (pop (contents nil q) empty given)
    pop_empty empty given e =
        let nothing = contents-count_zero q (ground arith) in
        rw nothing (record { reply = refl; valid = h; held = nothing; capacity = refl })

    pop_given :
        (empty : Reply V) (given : V → Reply V)
        → (q.count == 0) ≡ false
        → Agrees q (given (dequeue nil q).0, (dequeue nil q).1) (pop (contents nil q) empty given)
    pop_given empty given e =
        let (valid, held) = dequeue-contents nil q h (ground arith) in
        rw held
          (record { reply = refl; valid = valid; held = refl; capacity = unfold dequeue in refl })

    -- Each method of a well-formed queue answers as the bounded first-in first-out list does that
    -- holds the queue's values, and leaves a well-formed queue for the list's new values: a full
    -- queue makes `put:` wait and `tryPut:` fail, an empty one makes `get` wait and `tryGet` fail,
    -- and a `try` that does not get the mutex changes nothing.
    pub perform-Agrees :
        (c : Call V) → Agrees q (perform nil q c) (specify q.capacity (contents nil q) c)
    unfolding perform MessageQueue.put MessageQueue.get MessageQueue.try_put MessageQueue.try_get
    perform-Agrees (put v) = elim (Bool-cases (q.count == q.capacity)) [
      | inl e ↦ rw e (push_full v waits done e)
      | inr e ↦ rw e (push_room v waits done e)
    ]
    perform-Agrees (try_put true v) = elim (Bool-cases (q.count == q.capacity)) [
      | inl e ↦ rw e (push_full v (flag false) (flag true) e)
      | inr e ↦ rw e (push_room v (flag false) (flag true) e)
    ]
    perform-Agrees (try_put false v) = same_Agrees q h (flag false)
    perform-Agrees get = elim (Bool-cases (q.count == 0)) [
      | inl e ↦ rw e (pop_empty waits value e)
      | inr e ↦ rw e (pop_given waits value e)
    ]
    perform-Agrees (try_get true) = elim (Bool-cases (q.count == 0)) [
      | inl e ↦ rw e (pop_empty (optional none) (λ v. optional (some v)) e)
      | inr e ↦ rw e (pop_given (optional none) (λ v. optional (some v)) e)
    ]
    perform-Agrees (try_get false) = same_Agrees q h (optional none)
    perform-Agrees size_of =
        rw (length-contents q) (unfold size in same_Agrees q h (number q.count))
    perform-Agrees empty_of =
        rw (length-contents q) (unfold empty_p size in same_Agrees q h (flag (q.count == 0)))
    perform-Agrees full_of =
        rw (length-contents q) (unfold full_p in same_Agrees q h (flag (q.count == q.capacity)))

  -- Any sequence of calls, by whichever threads, on a well-formed queue is answered as by the
  -- bounded first-in first-out list of the queue's values.
  pub run_refines :
      (q : MessageQueue V) (cs : List (Call V))
      → IsValid nil q
      → run nil q cs ≡ run_list q.capacity (contents nil q) cs
  unfolding run
  run_refines q [] h = refl
  run_refines q (c ∷ cs) h =
      let a = perform-Agrees q h c in
      ap₂ ◌∷◌ a.reply (
        run_refines (perform nil q c).1 cs a.valid ∙ ap₂ (λ n l. run_list n l cs) a.capacity a.held)

  -- `MessageQueue new:` fails exactly at capacity 0 and where the array would not fit `size_t`;
  -- otherwise it gives a well-formed, empty queue of that capacity.
  pub new_named_lem :
      (capacity : ℕ)
      → ((new_named nil capacity ≡ none) × ((capacity ≡ 0) ⊎ (2 ^ 61 ≤ capacity)))
        ⊎ ((q : MessageQueue V) × (new_named nil capacity ≡ some q)
            × IsValid nil q
            × (q.capacity ≡ capacity)
            × (capacity < 2 ^ 61)
            × (contents nil q ≡ []))
  unfolding new_named
  new_named_lem capacity = elim (Bool-cases (capacity == 0 || ltb ((2 ^ 64 - 1) / 8) capacity)) [
    | inl e ↦ inl (rw e, ground arith)
    | inr e ↦ inr (
      fresh,
      rw e,
      record {
        room = ground arith;
        width = length-replicate capacity nil;
        head_in = ground arith;
        fits = omega arith;
        tail_at = ground arith;
        cleared = λ o lo hi. get_or-replicate capacity (wrap capacity (0 + o)) nil;
      },
      refl,
      ground arith,
      contents-count_zero fresh refl,
    )
  ]
    where
      fresh : MessageQueue V
      fresh = record {
        capacity = capacity;
        head = 0;
        tail = 0;
        count = 0;
        items = replicate capacity nil;
      }
