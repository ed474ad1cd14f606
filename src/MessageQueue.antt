-- ===== src/MessageQueue.antt =====
-- src/classes/MessageQueue.c: a bounded blocking queue of values over a circular array.
-- Each operation runs under the queue's mutex, so a call is one atomic step; a call that would
-- wait on a condition variable leaves the queue as it is, and is made again when it is signalled.
pub mod Contents
pub mod Fifo
mod Tests
use list_talk.Common.{
  ℕ, zero, suc, ◌+◌, ◌-◌, ◌/◌, ◌^◌, Bool, true, false, ◌||◌, Option, none, some, List, [], ◌∷◌, ltb,
  ◌==◌, if◌then◌else◌, get_or, set, replicate,
}

-- `struct LT_MessageQueue_s` without the lock words and the name.
pub record MessageQueue (V : Type 0) : Type 0 where
  pub capacity : ℕ
  pub head : ℕ
  pub tail : ℕ
  pub count : ℕ
  pub items : List V

pub next_index : {V : Type 0} → MessageQueue V → ℕ → ℕ
next_index queue index = if index + 1 == queue.capacity then 0 else index + 1

module _ {V : Type 0} where
  -- The statements of `LT_MessageQueue_put` and `LT_MessageQueue_tryPut` behind their tests.
  pub enqueue : MessageQueue V → V → MessageQueue V
  enqueue queue value = record queue {
    items = set queue.items queue.tail value;
    tail = next_index queue queue.tail;
    count = queue.count + 1;
  }

  -- `LT_MessageQueue_size`, `_empty_p`, `_full_p`
  pub size : MessageQueue V → ℕ
  size queue = queue.count

  pub empty_p : MessageQueue V → Bool
  empty_p queue = size queue == 0

  pub full_p : MessageQueue V → Bool
  full_p queue = queue.count == queue.capacity

  -- `LT_MessageQueue_put`; `none` means that the caller waits on `not_full`.
  unfoldable pub put : MessageQueue V → V → Option (MessageQueue V)
  put queue value = if queue.count == queue.capacity then none else some (enqueue queue value)

  -- `LT_MessageQueue_tryPut`; `locked` is what `LT_MutexWord_try_lock` returned.
  unfoldable pub try_put : Bool → MessageQueue V → V → Bool × MessageQueue V
  try_put locked queue value =
      if locked
      then if queue.count == queue.capacity then (false, queue) else (true, enqueue queue value)
      else (false, queue)

-- `nil` is `LT_NIL`.
module _ {V : Type 0} (nil : V) where
  -- `LT_MessageQueue_new_named`; `none` is `LT_error`: an empty capacity, or one whose array of
  -- 8-byte values is larger than `SIZE_MAX`.
  unfoldable pub new_named : ℕ → Option (MessageQueue V)
  new_named capacity =
      if capacity == 0 || ltb ((2 ^ 64 - 1) / 8) capacity
      then none
      else some (record {
        capacity = capacity;
        head = 0;
        tail = 0;
        count = 0;
        items = replicate capacity nil;
      })

  -- Those of `LT_MessageQueue_get` and `LT_MessageQueue_tryGet`; the second part is the queue.
  -- They run only at `count != 0`.
  pub dequeue : MessageQueue V → V × MessageQueue V
  dequeue queue = (
    get_or queue.items queue.head nil,
    record queue {
      items = set queue.items queue.head nil;
      head = next_index queue queue.head;
      count = queue.count - 1;
    },
  )

  -- `LT_MessageQueue_get`; `none` means that the caller waits on `not_empty`.
  unfoldable pub get : MessageQueue V → Option (V × MessageQueue V)
  get queue = if queue.count == 0 then none else some (dequeue queue)

  -- `LT_MessageQueue_tryGet`; the option is the result with `value_out`.
  unfoldable pub try_get : Bool → MessageQueue V → Option V × MessageQueue V
  try_get locked queue =
      if locked
      then if queue.count == 0 then (none, queue) else (some (dequeue queue).0, (dequeue queue).1)
      else (none, queue)
