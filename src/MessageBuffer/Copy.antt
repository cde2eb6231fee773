-- ===== src/MessageBuffer/Copy.antt =====
-- What `copyFromAeron` leaves in a buffer.
use aeron_archive_replay.Base.{
  ℕ, ◌+◌, ◌-◌, ◌≤◌, ◌≡◌, refl, sym, ap, ◌∙◌, min, List, [], ◌∷◌, ◌++◌, length, length-append, take,
  drop, take-append_left, drop-append_left, take_all, length-take, ltb, ltb→ge, Bool-cases, inl,
  inr, arith,
}
use aeron_archive_replay.MessageHeader.{
  MessageHeader, header_size, max_payload_size, encode, decode,
}
use aeron_archive_replay.MessageHeader.Layout.{IsPacked, length-encode, decode-encode}
use aeron_archive_replay.MessageBuffer.{MessageBuffer, copy_from_aeron, memcpy}

nil_of_length : (xs : List ℕ) → length xs ≡ 0 → xs ≡ []
nil_of_length [] e = refl
nil_of_length (x ∷ xs) e = absurd (omega arith)

-- `memcpy` of all of a string puts the string in front.
take-memcpy : (to from : List ℕ) → take (length from) (memcpy to from (length from)) ≡ from
take-memcpy to from =
    take-append_left (take (length from) from) (drop (length from) to) (length from)
      (omega (arith, length-take (length from) from))
    ∙ take_all from (length from) (omega arith)

module _ (b : MessageBuffer) {h : MessageHeader} (text : List ℕ) (p : IsPacked h)
    (fits : length text ≤ max_payload_size) where
  abbrev bytes : List ℕ
  bytes = encode h ++ text

  length-bytes : length bytes ≡ header_size + length text
  length-bytes = length-append (encode h) text ∙ ap (λ n. n + length text) (length-encode h p)

  header_copied : decode (memcpy (encode b.header) bytes (min (length bytes) header_size)) ≡ h
  header_copied =
      ap (λ n. decode (memcpy (encode b.header) bytes n)) {y = header_size}
        (omega (arith, length-bytes))
      ∙ ap (λ m. decode (m ++ drop header_size (encode b.header)))
          (take-append_left (encode h) text header_size (sym (length-encode h p)))
      ∙ decode-encode p (drop header_size (encode b.header))

  payload_copied :
      take (length text) (
        memcpy b.payload
          (drop header_size bytes)
          (min (length bytes - header_size) max_payload_size))
      ≡ text
  payload_copied =
      ap (λ n. take (length text) (memcpy b.payload (drop header_size bytes) n)) {y = length text}
        (omega (arith, length-bytes))
      ∙ ap (λ m. take (length text) (memcpy b.payload m (length text)))
          (drop-append_left (encode h) text header_size (sym (length-encode h p)))
      ∙ take-memcpy b.payload text

  -- The copy of a packed header and a payload that fits into any buffer gives that header, the
  -- payload's length, and the payload in front, and keeps `in_use`.
  pub copy_from_aeron_lem :
      let c = copy_from_aeron b (encode h ++ text) in
      (c.header ≡ h)
      × (c.actual_payload_length ≡ length text)
      × (take (length text) c.payload ≡ text)
      × (c.in_use ≡ b.in_use)
  unfolding copy_from_aeron
  copy_from_aeron_lem = elim (Bool-cases (ltb header_size (length bytes))) [
    | inl more ↦ rw more (header_copied, omega (arith, length-bytes), payload_copied, refl)
    | inr over ↦
        let empty = nil_of_length text (omega (arith, length-bytes, ltb→ge _ _ over)) in
        rw over (
          header_copied,
          sym (ap length empty),
          ap (λ xs. take (length xs) b.payload) empty ∙ sym empty,
          refl,
        )
  ]
