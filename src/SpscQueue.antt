-- ===== src/SpscQueue.antt =====
-- subscriber/include/SPSCQueue.h: the ring of statistics between the worker and the monitor. A
-- method that changes the queue returns the new queue. `size` is the template's `Size`.
pub mod Stats
pub mod Refine
use aeron_archive_replay.Base.{
  ℕ, ◌+◌, ◌-◌, ◌<◌, Bool, true, false, List, length, get_or, set, replicate, bit_and, add64, sub64,
  leb, ◌==◌, if◌then◌else◌,
}

pub record SpscQueue {ℓ} (T : Type ℓ) : Type ℓ where
  pub buffer : List T
  pub head : ℕ
  pub tail : ℕ

module _ (size : ℕ) where
  -- `(idx + 1) & (Size - 1)`
  unfoldable pub increment : ℕ → ℕ
  increment idx = bit_and (add64 idx 1) (sub64 size 1)

  unfoldable pub capacity : ℕ
  capacity = sub64 size 1

module _ {ℓ} {T : Type ℓ} (size : ℕ) where
  -- The constructor; `blank` is the default-constructed item of every slot.
  unfoldable pub new : T → SpscQueue T
  new blank = record { buffer = replicate size blank; head = 0; tail = 0 }

  unfoldable pub enqueue : SpscQueue T → T → Bool × SpscQueue T
  enqueue q item =
      let next_tail = increment size q.tail in
      if next_tail == q.head
      then (false, q)
      else (true, record q { buffer = set q.buffer q.tail item; tail = next_tail })

  -- The item variable keeps its value where the queue is empty.
  unfoldable pub dequeue : SpscQueue T → T → Bool × T × SpscQueue T
  dequeue q item =
      if q.head == q.tail
      then (false, item, q)
      else (true, get_or q.buffer q.head item, record q { head = increment size q.head })

  unfoldable pub count : SpscQueue T → ℕ
  count q = if leb q.head q.tail then sub64 q.tail q.head else add64 (sub64 size q.head) q.tail

unfoldable pub empty {ℓ} : {T : Type ℓ} → SpscQueue T → Bool
empty q = q.head == q.tail
