-- ===== src/MessageQueue/Refine.antt =====
-- The message queue implements the bounded FIFO of capacity `size - 1`, with its null check and its
-- counters.
use aeron_archive_replay.Fifo
use aeron_archive_replay.Ring.Size.{IsSize, mask_next, mask_used}
use aeron_archive_replay.Ring.Index.{used-lt}
use aeron_archive_replay.Ring.Contents.{
  contents, length-contents, contents_empty, contents-set_tail, contents-set_head, contents_cons,
  length-contents_full, length-contents_room,
}
use aeron_archive_replay.Base.{
  ℕ, ◌+◌, ◌-◌, ◌%◌, ◌<◌, ◌≡◌, sym, ◌∙◌, ◌↔◌, true, none, some, List, [], length, get_or_default,
  length-set, length-replicate, arith, ℕ_discrete,
}
use aeron_archive_replay.MessageQueue.{
  Pointer, MessageQueue, next, new, enqueue_buffer, dequeue, count, full,
}

module _ (size : ℕ) where
  pub record IsValid (q : MessageQueue) : Type 0 where
    pub slots : length q.buffer ≡ size
    pub head_in : q.head < size
    pub tail_in : q.tail < size

  -- The pointers in the queue, oldest first.
  unfoldable pub items : MessageQueue → List Pointer
  items q = contents size none q.buffer q.head q.tail

pub next_lem : {size : ℕ} → IsSize size → (i : ℕ) → i < size → next size i ≡ (i + 1) % size
unfolding next
next_lem s i h = mask_next s i h

module _ {size : ℕ} (s : IsSize size) where
  pub new-IsValid : IsValid size (new size) × (items size (new size) ≡ [])
  unfolding new items
  new-IsValid = (
    record { slots = length-replicate size none; head_in = s.is_positive; tail_in = s.is_positive },
    contents_empty size none _ 0 s.is_positive,
  )

  pub enqueue_buffer-IsValid :
      {q : MessageQueue} (b : ℕ) → IsValid size q → IsValid size (enqueue_buffer size q b).1
  unfolding enqueue_buffer
  enqueue_buffer-IsValid {q} b v =
      ground (arith, length-set q.buffer q.tail (some b), next_lem s q.tail v.tail_in)

  pub dequeue-IsValid :
      {q : MessageQueue} (x : Pointer) → IsValid size q → IsValid size (dequeue size q x).2
  unfolding dequeue
  dequeue-IsValid {q} x v =
      ground (arith, length-set q.buffer q.head none, next_lem s q.head v.head_in)

  module _ {q : MessageQueue} (v : IsValid size q) where
    -- On a valid queue `enqueue` of a pointer is the push of the bounded FIFO of capacity `size -
    -- 1`.
    pub enqueue_buffer_refines :
        (b : ℕ)
        → let (done, q') = enqueue_buffer size q b in
          (done, items size q') ≡ Fifo.push (size - 1) (items size q) (some b)
    unfolding enqueue_buffer items Fifo.push
    enqueue_buffer_refines b = ground (
      arith,
      next_lem s q.tail v.tail_in,
      length-contents_full size none q.buffer q.head q.tail v.slots v.head_in v.tail_in,
      length-contents_room size none q.buffer q.head q.tail v.slots v.head_in v.tail_in,
      contents-set_tail size none q.buffer q.head q.tail v.slots v.head_in v.tail_in (some b),
    )

    -- On a valid queue `dequeue` is the pop of the FIFO, and the caller's pointer stays where it
    -- is empty.
    pub dequeue_refines :
        (x : Pointer)
        → let (done, x', q') = dequeue size q x in
          (done, x', items size q') ≡ Fifo.pop (items size q) x
    unfolding dequeue items Fifo.pop
    dequeue_refines x = elim (ℕ_discrete q.head q.tail) [
      | yes e ↦ ground (arith, contents_empty size none q.buffer q.head v.head_in)
      | no ne ↦ ground (
        arith,
        next_lem s q.head v.head_in,
        contents_cons size none q.buffer q.head q.tail v.slots v.head_in v.tail_in ne,
        contents-set_head size none q.buffer q.head q.tail v.slots v.head_in v.tail_in none ne,
        get_or_default q.buffer q.head x none,
      )
    ]

    -- On a valid queue `size()` is the number of pointers in it.
    pub count_lem : count size q ≡ length (items size q)
    unfolding count items
    count_lem =
        mask_used s q.head q.tail v.head_in v.tail_in
        ∙ sym (length-contents size none q.buffer q.head q.tail)

    -- On a valid queue `full()` holds exactly where it has `size - 1` pointers.
    pub full_iff : (full size q ≡ true) ↔ (length (items size q) ≡ size - 1)
    unfolding full items
    full_iff = (
      λ e. ground (
        arith,
        next_lem s q.tail v.tail_in,
        length-contents_full size none q.buffer q.head q.tail v.slots v.head_in v.tail_in,
      ),
      λ e. ground (
        arith,
        next_lem s q.tail v.tail_in,
        length-contents_room size none q.buffer q.head q.tail v.slots v.head_in v.tail_in,
      ),
    )

    -- The queue has room for one pointer less than it has slots.
    pub length-items : length (items size q) < size
    unfolding items
    length-items = omega (
      arith,
      length-contents size none q.buffer q.head q.tail,
      used-lt size q.head q.tail (omega arith),
    )
