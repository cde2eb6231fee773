-- ===== src/MessageHeader.antt =====
-- `MessageHeader` of subscriber/include/MessageBuffer.h: 64 bytes, packed. The wire format is the
-- memory of the struct on the little-endian machines that the program is built for.
pub mod Layout
use aeron_archive_replay.Base.{
  ℕ, Bool, true, false, not, ◌&&◌, List, [], ◌∷◌, ◌++◌, take, drop, to_bytes, of_bytes, bit_and,
  ◌==◌,
}

-- `enum MessageType`
abbrev pub msg_order_new : ℕ
msg_order_new = 1

abbrev pub msg_order_execution : ℕ
msg_order_execution = 2

abbrev pub msg_order_modify : ℕ
msg_order_modify = 3

abbrev pub msg_order_cancel : ℕ
msg_order_cancel = 4

abbrev pub msg_quote_update : ℕ
msg_quote_update = 5

abbrev pub msg_test : ℕ
msg_test = 99

-- `FLAG_CHECKSUM_ENABLED`
abbrev pub flag_checksum_enabled : ℕ
flag_checksum_enabled = 1

abbrev pub header_size : ℕ
header_size = 64

abbrev pub max_payload_size : ℕ
max_payload_size = 4096

pub record MessageHeader : Type 0 where
  pub magic : List ℕ
  pub version : ℕ
  pub message_type : ℕ
  pub sequence_number : ℕ
  pub event_time_ns : ℕ
  pub publish_time_ns : ℕ
  pub recv_time_ns : ℕ
  pub message_length : ℕ
  pub publisher_id : ℕ
  pub priority : ℕ
  pub flags : ℕ
  pub session_id : ℕ
  pub checksum : ℕ
  pub reserved : ℕ

-- `memset(&header, 0, sizeof(header))`
abbrev pub zeroed : MessageHeader
zeroed = record {
  magic = 0 ∷ 0 ∷ 0 ∷ 0 ∷ [];
  version = 0;
  message_type = 0;
  sequence_number = 0;
  event_time_ns = 0;
  publish_time_ns = 0;
  recv_time_ns = 0;
  message_length = 0;
  publisher_id = 0;
  priority = 0;
  flags = 0;
  session_id = 0;
  checksum = 0;
  reserved = 0;
}

abbrev pub sekr : List ℕ
sekr = b'S' ∷ b'E' ∷ b'K' ∷ b'R' ∷ []

-- `memcmp` for equality.
unfoldable pub same_bytes : List ℕ → List ℕ → Bool
same_bytes [] [] = true
same_bytes (x ∷ xs) (y ∷ ys) = x == y && same_bytes xs ys
same_bytes _ _ = false

unfoldable pub is_valid : MessageHeader → Bool
unfolding same_bytes
is_valid h = same_bytes h.magic sekr

unfoldable pub set_magic : MessageHeader → MessageHeader
set_magic h = record h { magic = sekr }

unfoldable pub has_checksum : MessageHeader → Bool
has_checksum h = not (bit_and h.flags flag_checksum_enabled == 0)

-- The memory of the struct behind `magic`.
unfoldable pub encode_fields : MessageHeader → List ℕ
unfolding to_bytes
encode_fields h =
    to_bytes 2 h.version
    ++ (to_bytes 2 h.message_type
        ++ (to_bytes 8 h.sequence_number
            ++ (to_bytes 8 h.event_time_ns
                ++ (to_bytes 8 h.publish_time_ns
                    ++ (to_bytes 8 h.recv_time_ns
                        ++ (to_bytes 4 h.message_length
                            ++ (to_bytes 2 h.publisher_id
                                ++ (to_bytes 1 h.priority
                                    ++ (to_bytes 1 h.flags
                                        ++ (to_bytes 8 h.session_id
                                            ++ (to_bytes 4 h.checksum
                                                ++ to_bytes 4 h.reserved)))))))))))

-- The memory of the struct.
unfoldable pub encode : MessageHeader → List ℕ
unfolding encode_fields
encode h = h.magic ++ encode_fields h

-- The field of `n` bytes at an offset.
unfoldable pub field : ℕ → ℕ → List ℕ → ℕ
unfolding of_bytes
field offset n memory = of_bytes (take n (drop offset memory))

-- Memory read as the struct.
unfoldable pub decode : List ℕ → MessageHeader
unfolding field
decode m = record {
  magic = take 4 m;
  version = field 4 2 m;
  message_type = field 6 2 m;
  sequence_number = field 8 8 m;
  event_time_ns = field 16 8 m;
  publish_time_ns = field 24 8 m;
  recv_time_ns = field 32 8 m;
  message_length = field 40 4 m;
  publisher_id = field 44 2 m;
  priority = field 46 1 m;
  flags = field 47 1 m;
  session_id = field 48 8 m;
  checksum = field 56 4 m;
  reserved = field 60 4 m;
}
