-- ===== src/BufferPool.antt =====
-- `BufferPool` of subscriber/include/BufferPool.h, one call at a time: the compare-and-swap of a
-- call meets no other thread and succeeds at the first try.
pub mod Occurrences
pub mod Ownership
pub mod Clients
pub mod Threads
use aeron_archive_replay.Base.{
  ℕ, zero, suc, ◌+◌, ◌-◌, ◌*◌, ◌/◌, ◌^◌, Bool, true, false, not, Option, none, some, List, [], ◌∷◌,
  get_or, set, take, replicate, ltb, ◌==◌, if◌then◌else◌, add64, sub64,
}
use aeron_archive_replay.MessageBuffer.{MessageBuffer, blank, reset}
use aeron_archive_replay.MessageQueue.{Pointer}

-- A `MessageBuffer*` is its index in `buffers`; an index past the pool is a buffer of another owner.
pub record BufferPool : Type 0 where
  pub buffers : List MessageBuffer
  pub free_list : List ℕ
  pub free_count : ℕ
  pub total_allocations : ℕ
  pub total_deallocations : ℕ
  pub allocation_failures : ℕ

-- `i`, `i + 1` and so on, `n` of them.
unfoldable pub indices_from : ℕ → ℕ → List ℕ
indices_from i zero = []
indices_from i (suc n) = i ∷ indices_from (suc i) n

unfoldable pub new : ℕ → BufferPool
new size = record {
  buffers = replicate size blank;
  free_list = indices_from 0 size;
  free_count = size;
  total_allocations = 0;
  total_deallocations = 0;
  allocation_failures = 0;
}

unfoldable pub buffer_at : BufferPool → ℕ → MessageBuffer
buffer_at p i = get_or p.buffers i blank

unfoldable pub allocate : BufferPool → BufferPool × Pointer
unfolding buffer_at
allocate p =
    if p.free_count == 0
    then (record p { allocation_failures = add64 p.allocation_failures 1 }, none)
    else (let i = get_or p.free_list (p.free_count - 1) 0 in
        (
          record p {
            buffers = set p.buffers i (reset (record (buffer_at p i) { in_use = true }));
            free_count = p.free_count - 1;
            total_allocations = add64 p.total_allocations 1;
          },
          some i,
        ))

module _ (size : ℕ) where
  unfoldable pub is_valid_buffer : ℕ → Bool
  is_valid_buffer i = ltb i size

  unfoldable pub deallocate : BufferPool → Pointer → BufferPool
  unfolding is_valid_buffer buffer_at
  deallocate p none = p
  deallocate p (some i) =
      if not (is_valid_buffer i)
      then p
      else (let q = record p {
        buffers = set p.buffers i (record (buffer_at p i) { in_use = false });
      } in
          if ltb p.free_count size
          then record q {
            free_count = p.free_count + 1;
            free_list = set p.free_list p.free_count i;
            total_deallocations = add64 p.total_deallocations 1;
          }
          else q)

-- `Statistics` without the ratio, which is a floating-point number.
pub record Statistics : Type 0 where
  pub total_allocations : ℕ
  pub total_deallocations : ℕ
  pub allocation_failures : ℕ
  pub current_available : ℕ
  pub current_in_use : ℕ

abbrev pub available : BufferPool → ℕ
available p = p.free_count

unfoldable pub get_statistics : ℕ → BufferPool → Statistics
get_statistics size p = record {
  total_allocations = p.total_allocations;
  total_deallocations = p.total_deallocations;
  allocation_failures = p.allocation_failures;
  current_available = available p;
  current_in_use = sub64 size (available p);
}
