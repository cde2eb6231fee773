-- ===== src/AeronPublisher/Sending.antt =====
-- A published message, received into a buffer, is what was published, and is accepted.
use aeron_archive_replay.Base.{
  ℕ, ◌+◌, ◌^◌, ◌<◌, ◌≤◌, ◌≡◌, refl, ap, ◌∙◌, true, List, ◌++◌, length, take, take_all,
  length-append, text_of, decimal, decimal_within, length-decimal_within, add64, sub64, arith,
}
use aeron_archive_replay.Crc.{calculate_crc32}
use aeron_archive_replay.MessageHeader.{
  MessageHeader, header_size, max_payload_size, set_magic, is_valid, same_bytes, has_checksum,
  encode,
}
use aeron_archive_replay.MessageBuffer.{
  MessageBuffer, copy_from_aeron, calculate_message_crc32, validate,
}
use aeron_archive_replay.MessageBuffer.Copy.{copy_from_aeron_lem}
use aeron_archive_replay.MessageBuffer.Validation.{
  IsPublished, calculate_message_crc32_lem, validate-copy_from_aeron_iff,
}
use aeron_archive_replay.AeronPublisher.Message.{
  initial_header, unsigned_header, signed_header, test_payload, message_payload, message_header,
  message_bytes,
}

-- The text of any number fits, in the message and in the array that it is printed to.
length-message_payload : (n : ℕ) → length (message_payload n) ≤ 48
unfolding message_payload test_payload decimal
length-message_payload n =
    let d = decimal_within 20 (sub64 (add64 n 1) 1) in
    omega (
      arith,
      length-append d (text_of " from Publisher"),
      length-decimal_within 20 (sub64 (add64 n 1) 1),
    )

-- The length in the header is that of the message.
pub message_header-message_length :
    (n event_time publish_time : ℕ)
    → (message_header n event_time publish_time).message_length
      ≡ header_size + length (message_payload n)
unfolding message_header signed_header unsigned_header
message_header-message_length n event_time publish_time = omega (arith, length-message_payload n)

-- A checksum has 32 bits.
calculate_message_crc32-lt :
    (h : MessageHeader) (payload : List ℕ) (n : ℕ) → calculate_message_crc32 h payload n < 2 ^ 32
unfolding calculate_message_crc32
calculate_message_crc32-lt h payload n = omega arith

module _ (n event_time publish_time : ℕ) (n_fits : n < 2 ^ 64) (event_fits : event_time < 2 ^ 64)
    (publish_fits : publish_time < 2 ^ 64) where
  abbrev h : MessageHeader
  h = message_header n event_time publish_time

  pub message_header-IsPublished : IsPublished h
  unfolding message_header signed_header unsigned_header initial_header set_magic is_valid
      same_bytes has_checksum
  message_header-IsPublished = record {
    packed = record {
      magic_length = refl;
      magic_bytes = omega arith;
      version = omega arith;
      message_type = omega arith;
      sequence_number = n_fits;
      event_time_ns = event_fits;
      publish_time_ns = publish_fits;
      recv_time_ns = omega arith;
      message_length = omega arith;
      publisher_id = omega arith;
      priority = omega arith;
      flags = omega arith;
      session_id = omega arith;
      checksum = calculate_message_crc32-lt _ _ _;
      reserved = omega arith;
    };
    magic = refl;
    version = refl;
    message_length = omega (arith, length-message_payload n);
    checksum_enabled = refl;
  }

  -- The checksum in the header is that of the bytes with the checksum field zero.
  carries_checksum :
      h.checksum ≡ calculate_crc32 (encode (record h { checksum = 0 }) ++ message_payload n)
  unfolding message_header signed_header unsigned_header initial_header
  carries_checksum =
      calculate_message_crc32_lem _ (message_payload n) (length (message_payload n))
      ∙ ap (λ t. calculate_crc32 (encode (record h { checksum = 0 }) ++ t))
          (take_all (message_payload n) (length (message_payload n)) (omega arith))

  -- A message that the publisher builds, with a sequence number and times of 64 bits, arrives
  -- whole: its copy into any buffer has its header, its text as the payload, and passes
  -- `validate`.
  pub copy_from_aeron-message_bytes :
      (b : MessageBuffer)
      → let c = copy_from_aeron b (message_bytes n event_time publish_time) in
        (c.header ≡ message_header n event_time publish_time)
        × (take c.actual_payload_length c.payload ≡ message_payload n)
        × (validate c ≡ true)
  unfolding message_bytes
  copy_from_aeron-message_bytes b =
      let fits : length (message_payload n) ≤ max_payload_size =
        omega (arith, length-message_payload n) in
      let k = copy_from_aeron_lem b (message_payload n) message_header-IsPublished.packed fits in
      (
        k.0,
        ap (λ m. take m (copy_from_aeron b (message_bytes n event_time publish_time)).payload) k.1
            ∙ k.2,
        (validate-copy_from_aeron_iff b message_header-IsPublished (message_payload n) fits).1
            carries_checksum,
      )
