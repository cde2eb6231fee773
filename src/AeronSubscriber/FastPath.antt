-- ===== src/AeronSubscriber/FastPath.antt =====
-- `handleMessageFastPath` and `handleMessage`, as one step of the subscriber's thread: the worker and
-- the flushing thread take no step within it.
use aeron_archive_replay.Base.{
  ℕ, false, not, ◌&&◌, none, some, List, set, add64, sub64, if◌then◌else◌,
}
use aeron_archive_replay.MessageBuffer.{copy_from_aeron}
use aeron_archive_replay.BufferPool.{BufferPool, buffer_at, allocate, deallocate}
use aeron_archive_replay.MessageQueue.{Pointer, enqueue}
use aeron_archive_replay.CheckpointManager.{update}
use aeron_archive_replay.AeronSubscriber.{AeronSubscriber, System}
use aeron_archive_replay.AeronSubscriber.Recording.{Archive}
use aeron_archive_replay.AeronSubscriber.Tracking.{
  check_for_gaps, is_duplicate, add_to_deduplication_buffer, trigger_immediate_gap_recovery,
}

-- A message as Aeron hands it over, and the two readings of the clock that its handling makes.
pub record Fragment : Type 0 where
  pub bytes : List ℕ
  pub position : ℕ
  pub recv_timestamp : ℕ
  pub checkpoint_time : ℕ

-- Step 3: the buffer, filled.
unfoldable pub fill : BufferPool → ℕ → Fragment → BufferPool
fill pool i f =
    let b = copy_from_aeron (buffer_at pool i) f.bytes in
    record pool {
      buffers =
          set pool.buffers i
            (record b { header = record b.header { recv_time_ns = f.recv_timestamp } });
    }

-- Step 4. Both operands of `&&` and the recovery read what `checkForGaps` leaves.
unfoldable pub track_gap : Archive → AeronSubscriber → ℕ → AeronSubscriber
track_gap a s message_number =
    let (gap, checked) = check_for_gaps s message_number in
    if not s.config.gap_recovery_enabled
    then s
    else if not gap
    then checked
    else (let counted = record checked { gaps_detected = add64 checked.gaps_detected 1 } in
        (trigger_immediate_gap_recovery a counted counted.expected_sequence
          (sub64 message_number 1)).1)

-- Step 6.
unfoldable pub track_message : AeronSubscriber → ℕ → AeronSubscriber
track_message s message_number =
    let expecting = record s { expected_sequence = add64 message_number 1 } in
    if s.config.duplicate_check_enabled
    then add_to_deduplication_buffer expecting message_number
    else expecting

-- Steps 8 and 9; `sequence` is the header's sequence number at that time.
unfoldable pub count_message : AeronSubscriber → (sequence position now : ℕ) → AeronSubscriber
count_message s sequence position now =
    let received = add64 s.zc_messages_received 1 in
    let counted = record s { zc_messages_received = received } in
    elim s.checkpoint [
      | none ↦ counted
      | some c ↦ record counted {
        checkpoint = some (record c {
          checkpoint_data = update c.checkpoint_data sequence position received now;
        });
      }
    ]

module _ (pool_size queue_size : ℕ) (archive : Archive) where
  -- Step 7 and what follows it.
  unfoldable pub hand_over : System → ℕ → Fragment → System
  hand_over s i f =
      let (done, queue) = enqueue queue_size s.queue (some i) in
      let sub = s.subscriber in
      if not done
      then record s {
        pool = deallocate pool_size s.pool (some i);
        queue = queue;
        subscriber = record sub { zc_queue_full_failures = add64 sub.zc_queue_full_failures 1 };
      }
      else record s {
        queue = queue;
        subscriber =
            count_message sub (buffer_at s.pool i).header.sequence_number f.position
              f.checkpoint_time;
      }

  -- Steps 3 to 9, with the buffer `i` from the pool.
  unfoldable pub receive : System → ℕ → Fragment → System
  receive s i f =
      let pool = fill s.pool i f in
      let message_number = (buffer_at pool i).header.sequence_number in
      let sub = track_gap archive s.subscriber message_number in
      if sub.config.duplicate_check_enabled && is_duplicate sub message_number
      then record s {
        pool = deallocate pool_size pool (some i);
        subscriber = record sub { duplicates_detected = add64 sub.duplicates_detected 1 };
      }
      else hand_over (record s { pool = pool; subscriber = track_message sub message_number }) i f

  -- What follows step 2, by the pointer that the pool gave.
  unfoldable pub receive_in : System → Pointer → Fragment → System
  receive_in s none f =
      let sub = s.subscriber in
      record s {
        subscriber = record sub {
          zc_buffer_allocation_failures = add64 sub.zc_buffer_allocation_failures 1;
        };
      }
  receive_in s (some i) f = receive s i f

  unfoldable pub handle_message_fast_path : System → Fragment → System
  handle_message_fast_path s f =
      let (pool, p) = allocate s.pool in receive_in (record s { pool = pool }) p f

  unfoldable pub handle_message : System → Fragment → System
  unfolding handle_message_fast_path
  handle_message s f =
      if s.subscriber.buffer_pool && s.subscriber.message_queue
      then handle_message_fast_path s f
      else record s { subscriber = record s.subscriber { running = false } }
