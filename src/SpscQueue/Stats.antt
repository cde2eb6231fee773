-- ===== src/SpscQueue/Stats.antt =====
-- `MessageStats` of subscriber/include/SPSCQueue.h, the item of the statistics queue.
use aeron_archive_replay.Base.{ℕ, ◌&&◌, minus_one, sub64, slt, if◌then◌else◌}

-- All four are `int64_t`.
pub record MessageStats : Type 0 where
  pub message_number : ℕ
  pub send_timestamp : ℕ
  pub recv_timestamp : ℕ
  pub position : ℕ

abbrev pub blank : MessageStats
blank = record { message_number = minus_one; send_timestamp = 0; recv_timestamp = 0; position = 0 }

-- `latency_us` before its division by 1000.0: the nanoseconds, or 0 where they are not known.
unfoldable pub latency_ns : MessageStats → ℕ
latency_ns s =
    if slt 0 s.send_timestamp && slt s.send_timestamp s.recv_timestamp
    then sub64 s.recv_timestamp s.send_timestamp
    else 0
