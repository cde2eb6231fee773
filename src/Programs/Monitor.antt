-- ===== src/Programs/Monitor.antt =====
-- The monitoring thread of subscriber/src/main.cpp, but for what it prints. A latency in whole
-- microseconds is the nanoseconds' quotient, which the division of `double`s gives below 2 ^ 53
-- nanoseconds.
use aeron_archive_replay.Base.{
  ℕ, ◌-◌, ◌/◌, ◌%◌, ◌^◌, Bool, List, [], ◌∷◌, ◌==◌, if◌then◌else◌, ltb, slt, add64,
}
use aeron_archive_replay.SpscQueue.Stats.{MessageStats, latency_ns}

pub record Monitor : Type 0 where
  pub counter : ℕ
  pub total_latency_us : ℕ
  pub min_latency_us : ℕ
  pub max_latency_us : ℕ

abbrev pub start : Monitor
start = record {
  counter = 0;
  total_latency_us = 0;
  min_latency_us = 2 ^ 63 - 1;
  max_latency_us = 0;
}

-- `min` and `max` of two `int64_t`.
abbrev pub min64 : ℕ → ℕ → ℕ
min64 a b = if slt b a then b else a

abbrev pub max64 : ℕ → ℕ → ℕ
max64 a b = if slt a b then b else a

-- One message of the statistics queue.
unfoldable pub monitor : Monitor → MessageStats → Monitor
unfolding latency_ns
monitor m stats =
    let counted = record m { counter = add64 m.counter 1 } in
    let us = latency_ns stats / 1000 in
    if ltb 0 (latency_ns stats)
    then record counted {
      total_latency_us = add64 m.total_latency_us us;
      min_latency_us = min64 m.min_latency_us us;
      max_latency_us = max64 m.max_latency_us us;
    }
    else counted

-- Whether the statistics are printed.
abbrev pub prints : Monitor → Bool
prints m = m.counter % 100 == 0

unfoldable pub monitor_all : Monitor → List MessageStats → Monitor
unfolding monitor
monitor_all m [] = m
monitor_all m (s ∷ stats) = monitor_all (monitor m s) stats
