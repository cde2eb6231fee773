-- ===== src/MessageHeader/Layout.antt =====
-- The packed layout loses nothing: the struct and its 64 bytes determine one another.
use aeron_archive_replay.Base.{
  ℕ, ◌+◌, ◌^◌, ◌<◌, ◌≡◌, refl, sym, ap, ap₂, ◌∙◌, List, [], ◌∷◌, ◌++◌, length, length-append,
  IsBytes, IsBytes-append, of_bytes-to_bytes, arith,
}
use aeron_archive_replay.MessageHeader.{MessageHeader, encode_fields, encode, decode, header_size}

-- Each field holds a number of its width.
pub record IsPacked (h : MessageHeader) : Type 0 where
  pub magic_length : length h.magic ≡ 4
  pub magic_bytes : IsBytes h.magic
  pub version : h.version < 2 ^ 16
  pub message_type : h.message_type < 2 ^ 16
  pub sequence_number : h.sequence_number < 2 ^ 64
  pub event_time_ns : h.event_time_ns < 2 ^ 64
  pub publish_time_ns : h.publish_time_ns < 2 ^ 64
  pub recv_time_ns : h.recv_time_ns < 2 ^ 64
  pub message_length : h.message_length < 2 ^ 32
  pub publisher_id : h.publisher_id < 2 ^ 16
  pub priority : h.priority < 2 ^ 8
  pub flags : h.flags < 2 ^ 8
  pub session_id : h.session_id < 2 ^ 64
  pub checksum : h.checksum < 2 ^ 32
  pub reserved : h.reserved < 2 ^ 32

length-encode_fields : (h : MessageHeader) → length (encode_fields h) ≡ 60
unfolding encode_fields
length-encode_fields h = refl

pub length-encode : (h : MessageHeader) → IsPacked h → length (encode h) ≡ header_size
unfolding encode
length-encode h p =
    length-append h.magic (encode_fields h) ∙ ap₂ ◌+◌ p.magic_length (length-encode_fields h)

pub encode-IsBytes : (h : MessageHeader) → IsPacked h → IsBytes (encode h)
unfolding encode
encode-IsBytes h p = IsBytes-append h.magic (encode_fields h) p.magic_bytes (omega arith)

four_cells :
    (m : List ℕ) → length m ≡ 4 → (a : ℕ) × (b : ℕ) × (c : ℕ) × (d : ℕ) × (m ≡ a ∷ b ∷ c ∷ d ∷ [])
four_cells (a ∷ b ∷ c ∷ d ∷ []) e = (a, b, c, d, refl)
four_cells [] e = absurd (omega arith)
four_cells (a ∷ []) e = absurd (omega arith)
four_cells (a ∷ b ∷ []) e = absurd (omega arith)
four_cells (a ∷ b ∷ c ∷ []) e = absurd (omega arith)
four_cells (a ∷ b ∷ c ∷ d ∷ x ∷ m) e = absurd (omega arith)

-- With the cells of `magic` at hand the fields stand at their offsets by computation.
decode_cells :
    (a b c d : ℕ) {h : MessageHeader}
    → IsPacked h
    → (rest : List ℕ)
    → decode (a ∷ b ∷ c ∷ d ∷ (encode_fields h ++ rest)) ≡ record h { magic = a ∷ b ∷ c ∷ d ∷ [] }
unfolding decode encode_fields
decode_cells a b c d {h} p rest = λ i. record {
  magic = a ∷ b ∷ c ∷ d ∷ [];
  version = of_bytes-to_bytes 2 h.version p.version i;
  message_type = of_bytes-to_bytes 2 h.message_type p.message_type i;
  sequence_number = of_bytes-to_bytes 8 h.sequence_number p.sequence_number i;
  event_time_ns = of_bytes-to_bytes 8 h.event_time_ns p.event_time_ns i;
  publish_time_ns = of_bytes-to_bytes 8 h.publish_time_ns p.publish_time_ns i;
  recv_time_ns = of_bytes-to_bytes 8 h.recv_time_ns p.recv_time_ns i;
  message_length = of_bytes-to_bytes 4 h.message_length p.message_length i;
  publisher_id = of_bytes-to_bytes 2 h.publisher_id p.publisher_id i;
  priority = of_bytes-to_bytes 1 h.priority p.priority i;
  flags = of_bytes-to_bytes 1 h.flags p.flags i;
  session_id = of_bytes-to_bytes 8 h.session_id p.session_id i;
  checksum = of_bytes-to_bytes 4 h.checksum p.checksum i;
  reserved = of_bytes-to_bytes 4 h.reserved p.reserved i;
}

-- A header whose fields have their widths is read back from its memory, whatever stands behind it.
pub decode-encode :
    {h : MessageHeader} → IsPacked h → (rest : List ℕ) → decode (encode h ++ rest) ≡ h
unfolding encode
decode-encode {h} p rest =
    let (a, b, c, d, e) = four_cells h.magic p.magic_length in
    ap (λ m. decode ((m ++ encode_fields h) ++ rest)) e
    ∙ decode_cells a b c d p rest
    ∙ ap (λ m. record h { magic = m }) (sym e)
