-- ===== src/MessageBuffer/Validation.antt =====
-- `validate` on what `copyFromAeron` leaves: a message as published passes, a corrupted one does not.
use aeron_archive_replay.Base.{
  ℕ, ◌+◌, subst, ◌↔◌, ◌≤◌, ◌≡◌, ◌≢◌, sym, ap, ◌∙◌, true, false, not, ◌||◌, List, ◌++◌, append_assoc,
  take, length, IsBytes, IsBytes-append, ltb, ge→ltb, ◌==◌, ==_iff, if_true, if_false, arith,
}
use aeron_archive_replay.Crc.{complement, calculate_crc32}
use aeron_archive_replay.Crc.Detection.{update_all-append, burst_detected}
use aeron_archive_replay.MessageHeader.{
  MessageHeader, header_size, max_payload_size, is_valid, has_checksum, encode,
}
use aeron_archive_replay.MessageHeader.Layout.{IsPacked, encode-IsBytes}
use aeron_archive_replay.MessageBuffer.{
  MessageBuffer, copy_from_aeron, calculate_message_crc32, validate,
}
use aeron_archive_replay.MessageBuffer.Copy.{copy_from_aeron_lem}

-- The checksum of a message, taken in two loops, is the checksum of its header with the checksum
-- field zero followed by its payload.
pub calculate_message_crc32_lem :
    (h : MessageHeader) (payload : List ℕ) (n : ℕ)
    → calculate_message_crc32 h payload n
      ≡ calculate_crc32 (encode (record h { checksum = 0 }) ++ take n payload)
unfolding calculate_message_crc32 calculate_crc32
calculate_message_crc32_lem h payload n =
    ap complement
      (sym (update_all-append (encode (record h { checksum = 0 })) (take n payload) 0xffff_ffff))

-- What the publisher sets in a header that `validate` accepts but for the checksum.
pub record IsPublished (h : MessageHeader) : Type 0 where
  pub packed : IsPacked h
  pub magic : is_valid h ≡ true
  pub version : (h.version == 0 || ltb 100 h.version) ≡ false
  pub message_length : h.message_length ≤ header_size + max_payload_size
  pub checksum_enabled : has_checksum h ≡ true

validate_lem :
    (c : MessageBuffer)
    → IsPublished c.header
    → validate c
      ≡ (c.header.checksum == calculate_message_crc32 c.header c.payload c.actual_payload_length)
unfolding validate
validate_lem c p =
    if_false _ (ap not p.magic)
    ∙ if_false _ p.version
    ∙ if_false _ (ge→ltb (header_size + max_payload_size) c.header.message_length p.message_length)
    ∙ if_true _ p.checksum_enabled

module _ (b : MessageBuffer) {h : MessageHeader} (p : IsPublished h) (text : List ℕ)
    (fits : length text ≤ max_payload_size) where
  -- Of a copied message only the checksum is left to decide.
  validate-copy_from_aeron :
      validate (copy_from_aeron b (encode h ++ text))
      ≡ (h.checksum == calculate_crc32 (encode (record h { checksum = 0 }) ++ text))
  validate-copy_from_aeron =
      let c = copy_from_aeron b (encode h ++ text) in
      let k = copy_from_aeron_lem b text p.packed fits in
      validate_lem c (subst IsPublished (sym k.0) p)
      ∙ ap
          (λ (g : MessageHeader).
            g.checksum == calculate_message_crc32 g c.payload c.actual_payload_length)
          k.0
      ∙ ap (λ n. h.checksum == n)
          (calculate_message_crc32_lem h c.payload c.actual_payload_length
            ∙ ap (λ t. calculate_crc32 (encode (record h { checksum = 0 }) ++ t))
                (ap (λ n. take n c.payload) k.1 ∙ k.2))

  -- A message with a published header and a payload that fits passes `validate` after the copy
  -- exactly where its checksum is that of its bytes with the checksum field zero.
  pub validate-copy_from_aeron_iff :
      (validate (copy_from_aeron b (encode h ++ text)) ≡ true)
      ↔ (h.checksum ≡ calculate_crc32 (encode (record h { checksum = 0 }) ++ text))
  validate-copy_from_aeron_iff =
      let same = ==_iff h.checksum (calculate_crc32 (encode (record h { checksum = 0 }) ++ text)) in
      (λ e. same.0 (sym validate-copy_from_aeron ∙ e), λ e. validate-copy_from_aeron ∙ same.1 e)

-- A published message whose header carries its checksum, and whose payload arrives with the same
-- length and a difference within four bytes in a row, does not pass `validate` after the copy, if
-- the payload fits the buffer.
pub validate-corrupted :
    (b : MessageBuffer) {h : MessageHeader} (before sent arrived after : List ℕ)
    → IsPublished h
    → h.checksum
      ≡ calculate_crc32 (encode (record h { checksum = 0 }) ++ (before ++ (sent ++ after)))
    → IsBytes before
    → IsBytes sent
    → IsBytes arrived
    → IsBytes after
    → length sent ≡ length arrived
    → length sent ≤ 4
    → sent ≢ arrived
    → length (before ++ (arrived ++ after)) ≤ max_payload_size
    → validate (copy_from_aeron b (encode h ++ (before ++ (arrived ++ after)))) ≢ true
validate-corrupted b {h} before sent arrived after p made hb hs ha hc l four ne fits ok =
    let front = encode (record h { checksum = 0 }) in
    burst_detected (front ++ before) sent arrived after
      (IsBytes-append front before zeroed-IsBytes hb) hs ha hc l four ne
      (ap calculate_crc32 (append_assoc front before (sent ++ after))
        ∙ sym made
        ∙ (validate-copy_from_aeron_iff b p (before ++ (arrived ++ after)) fits).0 ok
        ∙ ap calculate_crc32 (sym (append_assoc front before (arrived ++ after))))
  where
    zeroed-IsBytes : IsBytes (encode (record h { checksum = 0 }))
    zeroed-IsBytes =
        let k = p.packed in
        encode-IsBytes (record h { checksum = 0 })
          (record {
            magic_length = k.magic_length;
            magic_bytes = k.magic_bytes;
            version = k.version;
            message_type = k.message_type;
            sequence_number = k.sequence_number;
            event_time_ns = k.event_time_ns;
            publish_time_ns = k.publish_time_ns;
            recv_time_ns = k.recv_time_ns;
            message_length = k.message_length;
            publisher_id = k.publisher_id;
            priority = k.priority;
            flags = k.flags;
            session_id = k.session_id;
            checksum = omega arith;
            reserved = k.reserved;
          })
