-- ===== src/MessageQueue.antt =====
-- subscriber/include/MessageQueue.h: the ring of buffer pointers between the subscriber thread and
-- the worker. A pointer is `some` of the index of its buffer in the pool, or `none` for `nullptr`.
-- `size` is the template's `Size`. The destructor only prints a warning; it is not modelled.
pub mod Refine
pub mod Threads
use aeron_archive_replay.Base.{
  ℕ, Bool, true, false, List, Option, none, some, get_or, set, replicate, bit_and, add64, sub64,
  ◌==◌, if◌then◌else◌,
}

abbrev pub Pointer : Type 0
Pointer = Option ℕ

pub record MessageQueue : Type 0 where
  pub buffer : List Pointer
  pub head : ℕ
  pub tail : ℕ
  pub total_enqueued : ℕ
  pub total_dequeued : ℕ
  pub enqueue_failures : ℕ

-- `getStatistics`; the ratio of the current size to the capacity is left as these two numbers.
pub record Statistics : Type 0 where
  pub total_enqueued : ℕ
  pub total_dequeued : ℕ
  pub enqueue_failures : ℕ
  pub current_size : ℕ
  pub capacity : ℕ

module _ (size : ℕ) where
  -- `(i + 1) & (Size - 1)`, as `enqueue`, `dequeue` and `full` write it.
  unfoldable pub next : ℕ → ℕ
  next i = bit_and (add64 i 1) (sub64 size 1)

  unfoldable pub capacity : ℕ
  capacity = sub64 size 1

  unfoldable pub new : MessageQueue
  new = record {
    buffer = replicate size none;
    head = 0;
    tail = 0;
    total_enqueued = 0;
    total_dequeued = 0;
    enqueue_failures = 0;
  }

  -- `enqueue` of a pointer that is not null.
  unfoldable pub enqueue_buffer : MessageQueue → ℕ → Bool × MessageQueue
  unfolding next
  enqueue_buffer q b =
      let next_tail = next q.tail in
      if next_tail == q.head
      then (false, record q { enqueue_failures = add64 q.enqueue_failures 1 })
      else (
        true,
        record q {
          buffer = set q.buffer q.tail (some b);
          tail = next_tail;
          total_enqueued = add64 q.total_enqueued 1;
        },
      )

  unfoldable pub enqueue : MessageQueue → Pointer → Bool × MessageQueue
  unfolding enqueue_buffer
  enqueue q none = (false, q)
  enqueue q (some b) = enqueue_buffer q b

  -- The caller's pointer keeps its value where the queue is empty.
  unfoldable pub dequeue : MessageQueue → Pointer → Bool × Pointer × MessageQueue
  unfolding next
  dequeue q buf = if q.head == q.tail then (false, buf, q) else (
    true,
    get_or q.buffer q.head buf,
    record q {
      buffer = set q.buffer q.head none;
      head = next q.head;
      total_dequeued = add64 q.total_dequeued 1;
    },
  )

  -- `size()`
  unfoldable pub count : MessageQueue → ℕ
  count q = bit_and (sub64 q.tail q.head) (sub64 size 1)

  unfoldable pub full : MessageQueue → Bool
  unfolding next
  full q = next q.tail == q.head

  unfoldable pub get_statistics : MessageQueue → Statistics
  unfolding count capacity
  get_statistics q = record {
    total_enqueued = q.total_enqueued;
    total_dequeued = q.total_dequeued;
    enqueue_failures = q.enqueue_failures;
    current_size = count q;
    capacity = capacity;
  }

unfoldable pub empty : MessageQueue → Bool
empty q = q.head == q.tail

-- Only the indices are reset: the slots keep their pointers, and no buffer goes back to the pool.
unfoldable pub clear : MessageQueue → MessageQueue
clear q = record q { head = 0; tail = 0 }
