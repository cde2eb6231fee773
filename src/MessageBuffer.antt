-- ===== src/MessageBuffer.antt =====
-- `MessageBuffer` of subscriber/include/MessageBuffer.h: a message as it stands in a buffer of the
-- pool. The padding and the accessors of the payload are left out.
pub mod Copy
pub mod Validation
use aeron_archive_replay.Base.{
  ℕ, ◌+◌, ◌-◌, ◌<◌, min, Bool, true, false, not, ◌&&◌, ◌||◌, List, ◌++◌, length, take, drop,
  replicate, ltb, ◌==◌, if◌then◌else◌, u32, sub64,
}
use aeron_archive_replay.Crc.{update_all, complement}
use aeron_archive_replay.MessageHeader.{
  MessageHeader, zeroed, header_size, max_payload_size, is_valid, has_checksum, encode, decode,
}

pub record MessageBuffer : Type 0 where
  pub header : MessageHeader
  pub payload : List ℕ
  pub in_use : Bool
  pub actual_payload_length : ℕ
  pub worker_dequeue_time_ns : ℕ

-- A new buffer. The constructor leaves the payload as it finds it; here it finds zeros.
abbrev pub blank : MessageBuffer
blank = record {
  header = zeroed;
  payload = replicate max_payload_size 0;
  in_use = false;
  actual_payload_length = 0;
  worker_dequeue_time_ns = 0;
}

-- `in_use` is the pool's, and the payload keeps its old bytes.
unfoldable pub reset : MessageBuffer → MessageBuffer
reset b = record b { header = zeroed; actual_payload_length = 0; worker_dequeue_time_ns = 0 }

unfoldable pub wire_size : MessageBuffer → ℕ
wire_size b = header_size + b.actual_payload_length

-- `memcpy(to, from, n)`: the memory `to` afterwards.
abbrev pub memcpy : List ℕ → List ℕ → ℕ → List ℕ
memcpy to from n = take n from ++ drop n to

-- The bytes from the network; the length of the list is the argument `length`.
unfoldable pub copy_from_aeron : MessageBuffer → List ℕ → MessageBuffer
copy_from_aeron b bytes =
    let copied = record b {
      header = decode (memcpy (encode b.header) bytes (min (length bytes) header_size));
    } in
    let payload_size = min (length bytes - header_size) max_payload_size in
    if ltb header_size (length bytes)
    then record copied {
      payload = memcpy b.payload (drop header_size bytes) payload_size;
      actual_payload_length = u32 payload_size;
    }
    else record copied { actual_payload_length = 0 }

-- `calculateMessageCRC32`: over the header with a zero checksum, then over the payload.
unfoldable pub calculate_message_crc32 : MessageHeader → List ℕ → ℕ → ℕ
calculate_message_crc32 header payload payload_length =
    let temp_header = record header { checksum = 0 } in
    let crc = update_all 0xffff_ffff (encode temp_header) in
    complement (update_all crc (take payload_length payload))

unfoldable pub validate : MessageBuffer → Bool
validate b =
    let h = b.header in
    if not (is_valid h)
    then false
    else if h.version == 0 || ltb 100 h.version
    then false
    else if ltb (header_size + max_payload_size) h.message_length
    then false
    else if has_checksum h
    then h.checksum == calculate_message_crc32 h b.payload b.actual_payload_length
    else true

-- `networkLatencyUs`, `eventToReceiveUs` and `queuingLatencyUs` in nanoseconds, before the division
-- by 1000.0.
unfoldable pub network_latency_ns : MessageHeader → ℕ
network_latency_ns h =
    if h.recv_time_ns == 0 || h.publish_time_ns == 0
    then 0
    else sub64 h.recv_time_ns h.publish_time_ns

unfoldable pub event_to_receive_ns : MessageHeader → ℕ
event_to_receive_ns h =
    if h.recv_time_ns == 0 || h.event_time_ns == 0 then 0 else sub64 h.recv_time_ns h.event_time_ns

unfoldable pub queuing_latency_ns : MessageBuffer → ℕ
queuing_latency_ns b =
    if b.worker_dequeue_time_ns == 0 || b.header.recv_time_ns == 0
    then 0
    else sub64 b.worker_dequeue_time_ns b.header.recv_time_ns
