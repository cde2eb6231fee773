-- ===== src/Tests.antt =====
-- Small data for the tests and the witnesses.
mod Queues
mod Wire
mod Buffers
mod Checkpoints
mod Tracking
mod Config
mod Publishing
mod Starts
mod Stops
mod Replays
use aeron_archive_replay.Ring.Size.{IsSize}
use aeron_archive_replay.Base.{ℕ, ◌^◌, true, false, refl, Option, none, some, List, [], ◌∷◌, arith}
use aeron_archive_replay.MessageHeader.{MessageHeader, sekr}
use aeron_archive_replay.MessageHeader.Layout.{IsPacked}

pub four-IsSize : IsSize 4
four-IsSize = record {
  exponent = 2;
  is_power = refl;
  is_positive = omega arith;
  fits = omega arith;
}

pub sixteen-IsSize : IsSize 16
sixteen-IsSize = record {
  exponent = 4;
  is_power = refl;
  is_positive = omega arith;
  fits = omega arith;
}

-- A test message with the sequence number `n`, with no checksum.
abbrev pub header_of : ℕ → MessageHeader
header_of n = record {
  magic = sekr;
  version = 1;
  message_type = 99;
  sequence_number = n;
  event_time_ns = 10;
  publish_time_ns = 20;
  recv_time_ns = 0;
  message_length = 66;
  publisher_id = 1;
  priority = 0;
  flags = 0;
  session_id = 5;
  checksum = 0;
  reserved = 0;
}

pub header_of-IsPacked : IsPacked (header_of 7)
header_of-IsPacked = record {
  magic_length = refl;
  magic_bytes = omega arith;
  version = omega arith;
  message_type = omega arith;
  sequence_number = omega arith;
  event_time_ns = omega arith;
  publish_time_ns = omega arith;
  recv_time_ns = omega arith;
  message_length = omega arith;
  publisher_id = omega arith;
  priority = omega arith;
  flags = omega arith;
  session_id = omega arith;
  checksum = omega arith;
  reserved = omega arith;
}
