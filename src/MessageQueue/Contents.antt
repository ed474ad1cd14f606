-- ===== src/MessageQueue/Contents.antt =====
-- The values that a queue holds, oldest first, and what a write to the array does to them.
use list_talk.Common.{
  ℕ, zero, suc, ◌+◌, ◌-◌, ◌≤◌, ◌<◌, ◌≡◌, refl, ap, sym, ◌∙◌, ◌≢◌, List, [], ◌∷◌, ◌++◌, arith, ltb,
  ◌==◌, if◌then◌else◌, length, get_or, set, length-set, get_or-set, ◌&&◌, Bool-cases, inl, inr,
}
use mathlib.Core.Path.{ap₂}
use list_talk.MessageQueue.{MessageQueue, next_index, enqueue, dequeue}

abbrev pub wrap : ℕ → ℕ → ℕ
wrap size x = if ltb x size then x else x - size

module _ {V : Type 0} (nil : V) where
  -- `n` values from offset `o` behind `head` on.
  unfoldable pub window : List V → ℕ → ℕ → ℕ → ℕ → List V
  window items size head o zero = []
  window items size head o (suc n) =
      get_or items (wrap size (head + o)) nil ∷ window items size head (o + 1) n

  -- The array is full size, the indices are inside, and free places hold `nil`.
  pub record IsValid (q : MessageQueue V) : Type 0 where
    pub room : 0 < q.capacity
    pub width : length q.items ≡ q.capacity
    pub head_in : q.head < q.capacity
    pub fits : q.count ≤ q.capacity
    pub tail_at : q.tail ≡ wrap q.capacity (q.head + q.count)
    pub cleared :
        (o : ℕ)
        → q.count ≤ o
        → o < q.capacity
        → get_or q.items (wrap q.capacity (q.head + o)) nil ≡ nil

  unfoldable pub contents : MessageQueue V → List V
  contents q = window q.items q.capacity q.head 0 q.count

  pub length-window : (items : List V) (size head o n : ℕ) → length (window items size head o n) ≡ n
  unfolding window
  length-window items size head o zero = refl
  length-window items size head o (suc n) = ap suc (length-window items size head (o + 1) n)

  window-snoc :
      (items : List V) (size head o n : ℕ)
      → window items size head o (suc n)
        ≡ window items size head o n ++ get_or items (wrap size (head + (o + n))) nil ∷ []
  unfolding window
  window-snoc items size head o zero =
      ap (λ (i : ℕ). get_or items (wrap size (head + i)) nil ∷ []) (omega arith)
  window-snoc items size head o (suc n) =
      ap (λ t. get_or items (wrap size (head + o)) nil ∷ t)
        (window-snoc items size head (o + 1) n
          ∙ ap
              (λ (i : ℕ).
                window items size head (o + 1) n ++ get_or items (wrap size (head + i)) nil ∷ [])
              (omega arith))

  -- A write at offset `m` is not seen by the offsets before or behind it.
  window-set :
      (items : List V) (size head o n m : ℕ) (v : V)
      → head < size
      → m < size
      → o + n ≤ size
      → ((i : ℕ) → o ≤ i → i < o + n → i ≢ m)
      → window (set items (wrap size (head + m)) v) size head o n ≡ window items size head o n
  unfolding window
  window-set items size head o zero m v h hm le apart = refl
  window-set items size head o (suc n) m v h hm le apart = cc (
    get_or-set_other,
    window-set items size head (o + 1) n m v h hm (omega arith)
        (λ i lo hi. apart i (omega arith) (omega arith)),
  )
    where
      get_or-set_other :
          get_or (set items (wrap size (head + m)) v) (wrap size (head + o)) nil
          ≡ get_or items (wrap size (head + o)) nil
      get_or-set_other =
          let away = apart o (omega arith) (omega arith) in
          rw (get_or-set items (wrap size (head + m)) (wrap size (head + o)) v nil) (ground arith)

  window-shift :
      (items : List V) (size head o n : ℕ)
      → head < size
      → o + 1 + n ≤ size
      → window items size (wrap size (head + 1)) o n ≡ window items size head (o + 1) n
  unfolding window
  window-shift items size head o zero h le = refl
  window-shift items size head o (suc n) h le =
      let at : wrap size (wrap size (head + 1) + o) ≡ wrap size (head + (o + 1)) = ground arith in
      cc (at, window-shift items size head (o + 1) n h (omega arith))

  snoc_set :
      (items : List V) (size head n : ℕ) (v : V)
      → length items ≡ size
      → head < size
      → n < size
      → window (set items (wrap size (head + n)) v) size head 0 (n + 1)
        ≡ window items size head 0 n ++ v ∷ []
  snoc_set items size head n v w h room =
      let new = set items (wrap size (head + n)) v in
      ap (window new size head 0) (omega arith)
      ∙ window-snoc new size head 0 n
      ∙ ap₂ (λ s x. s ++ x ∷ [])
          (window-set items size head 0 n n v h room (omega arith) (λ i lo hi. omega arith))
          (rw (get_or-set items (wrap size (head + n)) (wrap size (head + (0 + n))) v nil)
            (ground arith))

  uncons_set :
      (items : List V) (size head n : ℕ)
      → head < size
      → n < size
      → window items size head 0 (suc n)
        ≡ get_or items head nil ∷ window (set items head nil) size (wrap size (head + 1)) 0 n
  unfolding window
  uncons_set items size head n h room =
      let start : wrap size (head + 0) ≡ head = ground arith in
      let old : window (set items (wrap size (head + 0)) nil) size head 1 n
          ≡ window items size head 1 n =
        window-set items size head 1 n 0 nil h (omega arith) (omega arith)
          (λ i lo hi. omega arith) in
      let there = window-shift (set items head nil) size head 0 n h (omega arith) in
      ap₂ (λ j s. get_or items j nil ∷ s) start
        (sym old ∙ ap (λ j. window (set items j nil) size head 1 n) start ∙ sym there)

  module _ (q : MessageQueue V) (h : IsValid q) where
    -- A value put into a queue with room goes behind the others.
    pub enqueue-contents :
        (v : V)
        → q.count < q.capacity
        → IsValid (enqueue q v) × (contents (enqueue q v) ≡ contents q ++ v ∷ [])
    unfolding enqueue next_index contents
    enqueue-contents v room = (
      record {
        room = h.room;
        width = length-set q.items q.tail v ∙ h.width;
        head_in = h.head_in;
        fits = omega arith;
        tail_at = ground (arith, h.tail_at);
        cleared = λ o lo hi.
            rw
              (
                h.tail_at,
                get_or-set q.items (wrap q.capacity (q.head + q.count))
                    (wrap q.capacity (q.head + o)) v nil,
              )
              (ground (arith, h.cleared o (omega arith) hi));
      },
      ap (λ t. window (set q.items t v) q.capacity q.head 0 (q.count + 1)) h.tail_at
          ∙ snoc_set q.items q.capacity q.head q.count v h.width h.head_in room,
    )

    -- The oldest value comes out, and its place is cleared.
    pub dequeue-contents :
        0 < q.count
        → IsValid (dequeue nil q).1 × (contents q ≡ (dequeue nil q).0 ∷ contents (dequeue nil q).1)
    unfolding dequeue next_index contents
    dequeue-contents some_left = (
      record {
        room = h.room;
        width = length-set q.items q.head nil ∙ h.width;
        head_in = ground (arith, h.head_in);
        fits = omega arith;
        tail_at = ground (arith, h.tail_at);
        cleared = λ o lo hi.
            rw (get_or-set q.items q.head (wrap q.capacity (next_index q q.head + o)) nil nil)
              (cleared_behind o lo hi);
      },
      ap (window q.items q.capacity q.head 0) last
          ∙ uncons_set q.items q.capacity q.head (q.count - 1) h.head_in (omega (arith, h.fits))
          ∙ ap
              (λ j.
                get_or q.items q.head nil
                ∷ window (set q.items q.head nil) q.capacity j 0 (q.count - 1))
              next,
    )
      where
        last : q.count ≡ suc (q.count - 1)
        last = omega arith

        next : wrap q.capacity (q.head + 1) ≡ next_index q q.head
        next = ground (arith, h.head_in)

        cleared_behind :
            (o : ℕ)
            → q.count - 1 ≤ o
            → o < q.capacity
            → (if (q.head == wrap q.capacity (next_index q q.head + o))
                  && ltb q.head (length q.items)
                then nil
                else get_or q.items (wrap q.capacity (next_index q q.head + o)) nil)
              ≡ nil
        cleared_behind o lo hi = elim (Bool-cases (ltb (o + 1) q.capacity)) [
          | inl in_range ↦
              let same : wrap q.capacity (next_index q q.head + o)
                  ≡ wrap q.capacity (q.head + (o + 1)) =
                ground (arith, h.head_in) in
              rw same (ground (arith, h.cleared (o + 1)))
          | inr last_place ↦ ground (arith, h.head_in, h.width)
        ]
