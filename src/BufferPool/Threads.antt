-- ===== src/BufferPool/Threads.antt =====
-- `BufferPool::allocate` and `BufferPool::deallocate` on any number of threads, one access of shared
-- memory at a time. The atomic accesses are taken as sequentially consistent.
pub mod Counts
pub mod Interleavings
pub mod Alone
pub mod Stale
pub mod Owners
pub mod Exclusive
use aeron_archive_replay.Base.{
  ℕ, ◌+◌, ◌-◌, Bool, true, false, not, ◌&&◌, Option, none, some, List, [], ◌∷◌, length, get_or, set,
  replicate, ltb, ◌==◌, if◌then◌else◌, add64,
}
use aeron_archive_replay.MessageBuffer.{MessageBuffer, blank, reset}
use aeron_archive_replay.MessageQueue.{Pointer}
use aeron_archive_replay.BufferPool.{BufferPool, new, is_valid_buffer}

-- Where a thread stands, with the locals that are live there.
pub data Thread : Type 0 where
  outside : Thread
  trying : (count : ℕ) → Thread  -- `allocate` has a count, before its test and the exchange
  taking : (count : ℕ) → Thread  -- the exchange is done, before the free list is read
  marking : (buf : ℕ) → Thread  -- before the buffer is marked as in use
  clearing : (buf : ℕ) → Thread  -- before the buffer is reset
  tallying : (buf : ℕ) → Thread  -- before the allocation is counted
  unmarking : (buf : ℕ) → Thread  -- `deallocate`, before the buffer is marked as not in use
  loading : (buf : ℕ) → Thread  -- before the count is loaded
  giving : (buf count : ℕ) → Thread  -- before the test of the count and the exchange
  storing : (buf count : ℕ) → Thread  -- the exchange is done, before the store to the free list
  noting : Thread  -- before the deallocation is counted

-- What a thread outside of every call does next.
pub data Call : Type 0 where
  rest : Call
  allocating : Call
  deallocating : Pointer → Call

-- `held` is what `allocate` has returned and was not passed to `deallocate` since; `overflows` is how
-- often `deallocate` has printed that the free list overflows.
pub record Shared : Type 0 where
  pub pool : BufferPool
  pub held : List ℕ
  pub overflows : ℕ

pub record System : Type 0 where
  pub shared : Shared
  pub threads : List Thread

-- The list with `x` back in front, where there is one.
unfoldable pub without_later : ℕ → Option (List ℕ) → Option (List ℕ)
without_later x none = none
without_later x (some xs) = some (x ∷ xs)

-- The list without the first `i`, where there is one.
unfoldable pub without : ℕ → List ℕ → Option (List ℕ)
unfolding without_later
without i [] = none
without i (x ∷ xs) = if x == i then some xs else without_later x (without i xs)

-- A write to fields of `buffers_[i]`.
unfoldable pub at : ℕ → (MessageBuffer → MessageBuffer) → BufferPool → BufferPool
at i f p = record p { buffers = set p.buffers i (f (get_or p.buffers i blank)) }

abbrev pub use_as : Bool → MessageBuffer → MessageBuffer
use_as b m = record m { in_use = b }

-- Which thread moves, what it begins where it is outside, and whether an exchange fails spuriously.
pub record Turn : Type 0 where
  pub thread : ℕ
  pub call : Call
  pub spurious : Bool

module _ (size : ℕ) where
  -- A client passes `deallocate` only what it holds; an address outside the pool is refused before
  -- any access of shared memory.
  unfoldable pub begin_deallocate : ℕ → Option (List ℕ) → Shared → Thread × Shared
  unfolding is_valid_buffer
  begin_deallocate i none s = (outside, s)
  begin_deallocate i (some left) s =
      (if is_valid_buffer size i then unmarking i else outside, record s { held = left })

  unfoldable pub begin : Call → Shared → Thread × Shared
  unfolding begin_deallocate without
  begin rest s = (outside, s)
  begin allocating s = (trying s.pool.free_count, s)
  begin (deallocating none) s = (outside, s)
  begin (deallocating (some i)) s = begin_deallocate i (without i s.held) s

  -- The next access of a thread. A weak exchange may fail where the count is the expected one.
  unfoldable pub move : Call → Bool → Thread → Shared → Thread × Shared
  unfolding begin at
  move c spurious outside s = begin c s
  move c spurious (trying count) s =
      let p = s.pool in
      if count == 0
      then (
        outside,
        record s { pool = record p { allocation_failures = add64 p.allocation_failures 1 } },
      )
      else if p.free_count == count && not spurious
      then (taking count, record s { pool = record p { free_count = count - 1 } })
      else (trying p.free_count, s)
  move c spurious (taking count) s = (marking (get_or s.pool.free_list (count - 1) 0), s)
  move c spurious (marking buf) s = (clearing buf, record s { pool = at buf (use_as true) s.pool })
  move c spurious (clearing buf) s = (tallying buf, record s { pool = at buf reset s.pool })
  move c spurious (tallying buf) s =
      let p = s.pool in
      (
        outside,
        record s {
          pool = record p { total_allocations = add64 p.total_allocations 1 };
          held = buf ∷ s.held;
        },
      )
  move c spurious (unmarking buf) s =
      (loading buf, record s { pool = at buf (use_as false) s.pool })
  move c spurious (loading buf) s = (giving buf s.pool.free_count, s)
  move c spurious (giving buf count) s =
      let p = s.pool in
      if not (ltb count size)
      then (outside, record s { overflows = s.overflows + 1 })
      else if p.free_count == count && not spurious
      then (storing buf count, record s { pool = record p { free_count = count + 1 } })
      else (giving buf p.free_count, s)
  move c spurious (storing buf count) s =
      let p = s.pool in
      (noting, record s { pool = record p { free_list = set p.free_list count buf } })
  move c spurious noting s =
      let p = s.pool in
      (
        outside,
        record s { pool = record p { total_deallocations = add64 p.total_deallocations 1 } },
      )

  unfoldable pub moved : System → ℕ → Thread × Shared → System
  moved s t r = record { shared = r.1; threads = set s.threads t r.0 }

  unfoldable pub step : System → Turn → System
  unfolding moved move
  step s t =
      if ltb t.thread (length s.threads)
      then moved s t.thread (move t.call t.spurious (get_or s.threads t.thread outside) s.shared)
      else s

  -- Any interleaving of the threads.
  unfoldable pub run : System → List Turn → System
  unfolding step
  run s [] = s
  run s (t ∷ turns) = run (step s t) turns

  -- A new pool with `n` threads.
  unfoldable pub start : ℕ → System
  unfolding new
  start n = record {
    shared = record { pool = new size; held = []; overflows = 0 };
    threads = replicate n outside;
  }
