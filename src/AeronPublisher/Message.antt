-- ===== src/AeronPublisher/Message.antt =====
-- The message that the loop of `run` builds.
use Prim.Native.Nat.{bit_or}
use aeron_archive_replay.Base.{
  ℕ, ◌+◌, List, ◌++◌, length, u32, add64, sub64, Text, text_of, decimal,
}
use aeron_archive_replay.MessageHeader.{
  MessageHeader, zeroed, header_size, msg_test, flag_checksum_enabled, set_magic, encode,
}
use aeron_archive_replay.MessageBuffer.{calculate_message_crc32}

-- `memset`, and the fields up to `reserved`.
unfoldable pub initial_header : (sequence_number event_time publish_time : ℕ) → MessageHeader
unfolding set_magic
initial_header sequence_number event_time publish_time = record (set_magic zeroed) {
  version = 1;
  message_type = msg_test;
  sequence_number = sequence_number;
  event_time_ns = event_time;
  publish_time_ns = publish_time;
  recv_time_ns = 0;
  publisher_id = 1;
  priority = 128;
  flags = 0;
  session_id = 1;
  checksum = 0;
  reserved = 0;
}

-- `snprintf` into 256 bytes; the counter has already moved on. The text is never cut.
unfoldable pub test_payload : ℕ → Text
unfolding decimal
test_payload sequence_number =
    text_of "Test message " ++ (decimal (sub64 sequence_number 1) ++ text_of " from Publisher")

-- The header with its length and, by `|=`, the flag of the checksum.
unfoldable pub unsigned_header : MessageHeader → Text → MessageHeader
unsigned_header h payload = record h {
  message_length = u32 (header_size + length payload);
  flags = bit_or h.flags flag_checksum_enabled;
}

unfoldable pub signed_header : MessageHeader → Text → MessageHeader
unfolding unsigned_header
signed_header h payload = record (unsigned_header h payload) {
  checksum = calculate_message_crc32 (unsigned_header h payload) payload (length payload);
}

-- The message of the counter's value: its header, its payload, and the buffer as far as they reach.
unfoldable pub message_payload : ℕ → Text
unfolding test_payload
message_payload sequence_number = test_payload (add64 sequence_number 1)

unfoldable pub message_header : (sequence_number event_time publish_time : ℕ) → MessageHeader
unfolding initial_header signed_header message_payload
message_header sequence_number event_time publish_time =
    signed_header (initial_header sequence_number event_time publish_time)
      (message_payload sequence_number)

unfoldable pub message_bytes : (sequence_number event_time publish_time : ℕ) → List ℕ
unfolding message_header message_payload
message_bytes sequence_number event_time publish_time =
    encode (message_header sequence_number event_time publish_time)
    ++ message_payload sequence_number
