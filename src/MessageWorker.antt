-- ===== src/MessageWorker.antt =====
-- `MessageWorker` of subscriber/include/MessageWorker.h and subscriber/src/MessageWorker.cpp. The
-- handlers of the single message types are empty in the source, and their dispatch only prints.
pub mod Duplicates
use aeron_archive_replay.Base.{
  ℕ, Bool, true, false, ◌||◌, List, [], ◌∷◌, ◌++◌, none, some, length, set, ltb, ◌==◌,
  if◌then◌else◌, add64, sub64,
}
use aeron_archive_replay.SpscQueue.{SpscQueue}
use aeron_archive_replay.SpscQueue as Spsc
use aeron_archive_replay.SpscQueue.Stats.{MessageStats}
use aeron_archive_replay.MessageBuffer.{MessageBuffer}
use aeron_archive_replay.BufferPool.{BufferPool, buffer_at, deallocate}
use aeron_archive_replay.MessageQueue.{Pointer, MessageQueue, dequeue, count}

-- `seen_sequences` is the hash set, newest first. `handled` is not in the source: the messages that the user's handler was
-- called with, in order.
pub record MessageWorker : Type 0 where
  pub has_handler : Bool
  pub running : Bool
  pub seen_sequences : List ℕ
  pub messages_processed : ℕ
  pub messages_invalid : ℕ
  pub messages_duplicate : ℕ
  pub queue_empty_count : ℕ
  pub total_processing_time_ns : ℕ
  pub processing_count : ℕ
  pub total_queue_depth : ℕ
  pub queue_depth_samples : ℕ
  pub handled : List MessageBuffer

-- The worker and what it shares with the subscriber and the monitor.
pub record Shop : Type 0 where
  pub worker : MessageWorker
  pub queue : MessageQueue
  pub pool : BufferPool
  pub stats_queue : SpscQueue MessageStats

-- The readings of the clock in one pass.
pub record Clock : Type 0 where
  pub dequeue_time : ℕ
  pub start_processing : ℕ
  pub end_processing : ℕ

unfoldable pub new : MessageWorker
new = record {
  has_handler = false;
  running = false;
  seen_sequences = [];
  messages_processed = 0;
  messages_invalid = 0;
  messages_duplicate = 0;
  queue_empty_count = 0;
  total_processing_time_ns = 0;
  processing_count = 0;
  total_queue_depth = 0;
  queue_depth_samples = 0;
  handled = [];
}

unfoldable pub set_message_handler : MessageWorker → MessageWorker
set_message_handler w = record w { has_handler = true }

-- The flag that the thread watches; both calls do nothing where it stands as they want it.
unfoldable pub start : MessageWorker → MessageWorker
start w = if w.running then w else record w { running = true }

unfoldable pub stop : MessageWorker → MessageWorker
stop w = if w.running then record w { running = false } else w

-- Every message is accepted; the checks of the header are commented out in the source.
unfoldable pub validate_message : Pointer → Bool
validate_message none = false
validate_message (some i) = true

unfoldable pub has_seen : List ℕ → ℕ → Bool
has_seen [] sequence = false
has_seen (x ∷ xs) sequence = x == sequence || has_seen xs sequence

abbrev pub seen_limit : ℕ
seen_limit = 1000000

unfoldable pub check_duplicate : MessageWorker → ℕ → Bool × MessageWorker
unfolding has_seen
check_duplicate w sequence =
    let seen = sequence ∷ w.seen_sequences in
    if has_seen w.seen_sequences sequence
    then (true, w)
    else if ltb seen_limit (length seen)
    then (false, record w { seen_sequences = [] })
    else (false, record w { seen_sequences = seen })

unfoldable pub process_message : MessageWorker → MessageBuffer → MessageWorker
process_message w b = if w.has_handler then record w { handled = w.handled ++ (b ∷ []) } else w

unfoldable pub stats_of : MessageBuffer → MessageStats
stats_of b = record {
  message_number = b.header.sequence_number;
  send_timestamp = b.header.publish_time_ns;
  recv_timestamp = b.header.recv_time_ns;
  position = 0;
}

module _ (stats_size : ℕ) where
  unfoldable pub send_to_monitoring :
      SpscQueue MessageStats → MessageBuffer → SpscQueue MessageStats
  unfolding stats_of
  send_to_monitoring q b = (Spsc.enqueue stats_size q (stats_of b)).1

module _ (pool_size queue_size stats_size : ℕ) where
  -- Steps 3 to 8, of the buffer `i`.
  unfoldable pub work_on : Shop → ℕ → Clock → Shop
  unfolding validate_message check_duplicate process_message send_to_monitoring
  work_on s i c =
      let b = record (buffer_at s.pool i) { worker_dequeue_time_ns = c.dequeue_time } in
      let pool = record s.pool { buffers = set s.pool.buffers i b } in
      let returned = deallocate pool_size pool (some i) in
      let w = s.worker in
      let (duplicate, checked) = check_duplicate w b.header.sequence_number in
      let processed = process_message checked b in
      if validate_message (some i)
      then (if duplicate
          then record s {
            pool = returned;
            worker = record w { messages_duplicate = add64 w.messages_duplicate 1 };
          }
          else record s {
            pool = returned;
            stats_queue = send_to_monitoring stats_size s.stats_queue b;
            worker = record processed {
              total_processing_time_ns =
                  add64 processed.total_processing_time_ns
                    (sub64 c.end_processing c.start_processing);
              processing_count = add64 processed.processing_count 1;
              messages_processed = add64 processed.messages_processed 1;
            };
          })
      else record s {
        pool = returned;
        worker = record w { messages_invalid = add64 w.messages_invalid 1 };
      }

  -- What follows a successful `dequeue`. The source would follow a null pointer, which the queue never
  -- holds.
  unfoldable pub work_in : Shop → Pointer → Clock → Shop
  unfolding work_on
  work_in s none c = s
  work_in s (some i) c = work_on s i c

  -- Step 1, and the queue after step 2.
  unfoldable pub sampled : Shop → MessageQueue → Shop
  sampled s queue =
      let w = s.worker in
      record s {
        worker = record w {
          total_queue_depth = add64 w.total_queue_depth (count queue_size s.queue);
          queue_depth_samples = add64 w.queue_depth_samples 1;
        };
        queue = queue;
      }

  -- One pass of the thread's loop.
  unfoldable pub pass : Shop → Clock → Shop
  unfolding work_in sampled
  pass s c =
      let (done, p, queue) = dequeue queue_size s.queue none in
      let taken = sampled s queue in
      if done then work_in taken p c else record taken {
        worker = record taken.worker { queue_empty_count = add64 taken.worker.queue_empty_count 1 };
      }

  -- The loop: it looks at the flag before each pass.
  unfoldable pub worker_thread_main : Shop → List Clock → Shop
  unfolding pass
  worker_thread_main s [] = s
  worker_thread_main s (c ∷ cs) =
      let rest = worker_thread_main (pass s c) cs in if s.worker.running then rest else s

-- `Statistics`; an average is the pair of its sum and its count.
pub record Statistics : Type 0 where
  pub messages_processed : ℕ
  pub messages_invalid : ℕ
  pub messages_duplicate : ℕ
  pub queue_empty_count : ℕ
  pub processing_time : ℕ × ℕ
  pub queue_depth : ℕ × ℕ

unfoldable pub get_statistics : MessageWorker → Statistics
get_statistics w = record {
  messages_processed = w.messages_processed;
  messages_invalid = w.messages_invalid;
  messages_duplicate = w.messages_duplicate;
  queue_empty_count = w.queue_empty_count;
  processing_time = (w.total_processing_time_ns, w.processing_count);
  queue_depth = (w.total_queue_depth, w.queue_depth_samples);
}
