-- ===== src/AeronSubscriber.antt =====
-- `AeronSubscriber` of subscriber/include/AeronSubscriber.h and subscriber/src/AeronSubscriber.cpp: its
-- state. The pool and the queue that it shares with the worker stand beside it. Printing is left out.
pub mod Tracking
pub mod Legacy
pub mod Recording
pub mod FastPath
pub mod Polling
pub mod Shutdown
pub mod Window
pub mod Gaps
pub mod Defaults
use aeron_archive_replay.Base.{
  ℕ, Bool, true, false, ◌&&◌, List, [], Option, none, some, replicate, minus_one, if◌then◌else◌,
  Text, text_of,
}
use aeron_archive_replay.MessageQueue.{MessageQueue}
use aeron_archive_replay.BufferPool.{BufferPool}
use aeron_archive_replay.CheckpointManager.{CheckpointManager, Files, start}

-- The two window sizes are an `int64_t`.
pub record SubscriberConfig : Type 0 where
  pub aeron_dir : Text
  pub archive_control_channel : Text
  pub subscription_channel : Text
  pub subscription_stream_id : ℕ
  pub replay_destination : Text
  pub gap_recovery_enabled : Bool
  pub max_gap_tolerance : ℕ
  pub gap_recovery_timeout_ms : ℕ
  pub duplicate_check_enabled : Bool
  pub duplicate_window_size : ℕ

abbrev pub default_config : SubscriberConfig
default_config = record {
  aeron_dir = text_of "/home/hesed/shm/aeron-subscriber";
  archive_control_channel = [];
  subscription_channel = [];
  subscription_stream_id = 10;
  replay_destination = text_of "aeron:udp?endpoint=localhost:40457";
  gap_recovery_enabled = true;
  max_gap_tolerance = 5;
  gap_recovery_timeout_ms = 1000;
  duplicate_check_enabled = true;
  duplicate_window_size = 1000;
}

-- Of an object behind a pointer the subscriber's own state keeps whether the pointer is set.
pub record AeronSubscriber : Type 0 where
  pub config : SubscriberConfig
  pub archive : Bool
  pub subscription : Bool
  pub replay_merge : Bool
  pub running : Bool
  pub message_count : ℕ
  pub expected_sequence : ℕ
  pub duplicate_buffer : List ℕ
  pub duplicate_buffer_pos : ℕ
  pub buffer_pool : Bool
  pub message_queue : Bool
  pub message_callback : Bool
  pub zc_messages_received : ℕ
  pub zc_buffer_allocation_failures : ℕ
  pub zc_queue_full_failures : ℕ
  pub gaps_detected : ℕ
  pub gaps_recovered : ℕ
  pub duplicates_detected : ℕ
  pub checkpoint : Option CheckpointManager

-- The constructor. `vector::resize` takes the window's size as an unsigned number; one that the
-- memory has no room for throws, which is not modelled.
unfoldable pub new : SubscriberConfig → AeronSubscriber
new config = record {
  config = config;
  archive = false;
  subscription = false;
  replay_merge = false;
  running = false;
  message_count = 0;
  expected_sequence = 0;
  duplicate_buffer =
      if config.duplicate_check_enabled
      then replicate config.duplicate_window_size minus_one
      else [];
  duplicate_buffer_pos = 0;
  buffer_pool = false;
  message_queue = false;
  message_callback = false;
  zc_messages_received = 0;
  zc_buffer_allocation_failures = 0;
  zc_queue_full_failures = 0;
  gaps_detected = 0;
  gaps_recovered = 0;
  duplicates_detected = 0;
  checkpoint = none;
}

-- The constructor without a configuration: it checks for duplicates by default, and leaves the ring of
-- recent numbers empty.
unfoldable pub new_default : AeronSubscriber
unfolding new
new_default = record (new default_config) { duplicate_buffer = [] }

-- `none` where it throws: the arguments say which of the two pointers is not null.
unfoldable pub initialize_zero_copy : AeronSubscriber → (pool queue : Bool) → Option AeronSubscriber
initialize_zero_copy s pool queue =
    if pool && queue then some (record s { buffer_pool = true; message_queue = true }) else none

-- Nothing reads the callback.
unfoldable pub set_message_callback : AeronSubscriber → AeronSubscriber
set_message_callback s = record s { message_callback = true }

-- The manager reads its file as it is built.
unfoldable pub enable_checkpoint : AeronSubscriber → Files → AeronSubscriber
enable_checkpoint s files = record s { checkpoint = some (start files) }

-- `initialize`; the argument says whether Aeron and the archive could be reached.
unfoldable pub initialize : AeronSubscriber → Bool → Bool × AeronSubscriber
initialize s connects =
    if connects then (true, record s { archive = true; running = true }) else (false, s)

unfoldable pub shutdown : AeronSubscriber → AeronSubscriber
shutdown s = record s {
  running = false;
  replay_merge = false;
  subscription = false;
  archive = false;
}

pub record ZeroCopyStats : Type 0 where
  pub messages_received : ℕ
  pub buffer_allocation_failures : ℕ
  pub queue_full_failures : ℕ

unfoldable pub get_zero_copy_stats : AeronSubscriber → ZeroCopyStats
get_zero_copy_stats s = record {
  messages_received = s.zc_messages_received;
  buffer_allocation_failures = s.zc_buffer_allocation_failures;
  queue_full_failures = s.zc_queue_full_failures;
}

-- The subscriber and what it shares with the worker.
pub record System : Type 0 where
  pub subscriber : AeronSubscriber
  pub pool : BufferPool
  pub queue : MessageQueue
