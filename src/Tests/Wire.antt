-- ===== src/Tests/Wire.antt =====
-- The checksum, the header and the copy of a message on concrete bytes.
use aeron_archive_replay.Base.{
  ℕ, true, ap, get_or, ◌*◌, ◌≡◌, ◌≢◌, refl, List, [], ◌∷◌, ◌++◌, of_bytes, bit_xor, arith,
}
use aeron_archive_replay.Crc.{shift_bits, update_all, calculate_crc32}
use aeron_archive_replay.Crc.Serial.{update_all_lem}
use aeron_archive_replay.Crc.Detection.{burst_detected}
use aeron_archive_replay.MessageHeader.{MessageHeader, is_valid, same_bytes, has_checksum, encode}
use aeron_archive_replay.MessageBuffer.{blank, copy_from_aeron, validate}
use aeron_archive_replay.MessageBuffer.Validation.{IsPublished, validate-corrupted}
use aeron_archive_replay.Tests.{header_of, header_of-IsPacked}

-- The check value of this CRC.
check_value :
    calculate_crc32 (b'1' ∷ b'2' ∷ b'3' ∷ b'4' ∷ b'5' ∷ b'6' ∷ b'7' ∷ b'8' ∷ b'9' ∷ [])
    ≡ 0xcbf4_3926
unfolding calculate_crc32
check_value = refl

update_all_lem_example :
    update_all 0xffff_ffff (1 ∷ 2 ∷ 3 ∷ [])
    ≡ shift_bits (8 * 3) (bit_xor 0xffff_ffff (of_bytes (1 ∷ 2 ∷ 3 ∷ [])))
update_all_lem_example = update_all_lem (1 ∷ 2 ∷ 3 ∷ []) 0xffff_ffff (omega arith)

burst_detected_example :
    calculate_crc32 ((7 ∷ []) ++ ((1 ∷ 2 ∷ []) ++ (9 ∷ [])))
    ≢ calculate_crc32 ((7 ∷ []) ++ ((1 ∷ 3 ∷ []) ++ (9 ∷ [])))
burst_detected_example =
    burst_detected (7 ∷ []) (1 ∷ 2 ∷ []) (1 ∷ 3 ∷ []) (9 ∷ []) (omega arith) (omega arith)
      (omega arith) (omega arith) refl (omega arith) two_ne
  where
    two_ne : ◌≢◌ {A = List ℕ} (1 ∷ 2 ∷ []) (1 ∷ 3 ∷ [])
    two_ne e = absurd (omega (arith, ap (λ l. get_or l 1 0) e))

-- The test message with its checksum.
abbrev published : MessageHeader
published = record (header_of 7) { flags = 1; checksum = 0x9eab_6e56 }

published-IsPublished : IsPublished published
unfolding is_valid same_bytes has_checksum
published-IsPublished =
    let k = header_of-IsPacked in
    record {
      packed = record {
        magic_length = k.magic_length;
        magic_bytes = k.magic_bytes;
        version = k.version;
        message_type = k.message_type;
        sequence_number = k.sequence_number;
        event_time_ns = k.event_time_ns;
        publish_time_ns = k.publish_time_ns;
        recv_time_ns = k.recv_time_ns;
        message_length = k.message_length;
        publisher_id = k.publisher_id;
        priority = k.priority;
        flags = omega arith;
        session_id = k.session_id;
        checksum = omega arith;
        reserved = k.reserved;
      };
      magic = refl;
      version = refl;
      message_length = omega arith;
      checksum_enabled = refl;
    }

abbrev unsigned_bytes : List ℕ
unsigned_bytes = encode (record published { checksum = 0 })

carries_checksum : published.checksum ≡ calculate_crc32 (unsigned_bytes ++ (65 ∷ 66 ∷ []))
unfolding calculate_crc32 encode
carries_checksum = refl

validate-corrupted_example :
    validate (copy_from_aeron blank (encode published ++ ((65 ∷ []) ++ ((67 ∷ []) ++ [])))) ≢ true
validate-corrupted_example =
    validate-corrupted blank (65 ∷ []) (66 ∷ []) (67 ∷ []) [] published-IsPublished carries_checksum
      (omega arith) (omega arith) (omega arith) tt refl (omega arith) ends_ne (omega arith)
  where
    ends_ne : ◌≢◌ {A = List ℕ} (66 ∷ []) (67 ∷ [])
    ends_ne e = absurd (omega (arith, ap (λ l. get_or l 0 0) e))
