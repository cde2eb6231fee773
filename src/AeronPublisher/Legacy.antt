-- ===== src/AeronPublisher/Legacy.antt =====
-- The publisher's texts as `extractMessageNumber` reads them.
use aeron_archive_replay.Base.{
  ℕ, ◌≡◌, ap, refl, ◌++◌, text_of, add64, sub64, decimal, decimal_within, decimal_within-IsDigits,
  IsWithout, IsWithout-append, IsDigits-IsWithout, find-IsWithout, minus_one, arith,
}
use aeron_archive_replay.AeronSubscriber.Legacy.{extract_message_number, number_at}
use aeron_archive_replay.AeronPublisher.Message.{test_payload, message_payload}

-- No text of the publisher has a capital M.
message_payload-IsWithout : (n : ℕ) → IsWithout b'M' (message_payload n)
unfolding message_payload test_payload decimal
message_payload-IsWithout n =
    let k = sub64 (add64 n 1) 1 in
    IsWithout-append b'M' (text_of "Test message ") (decimal k ++ text_of " from Publisher")
      (omega arith)
      (IsWithout-append b'M' (decimal k) (text_of " from Publisher")
        (IsDigits-IsWithout b'M' (decimal_within 20 k) refl (decimal_within-IsDigits 20 k))
        (omega arith))

-- In the text of no message of the publisher is a number found.
pub extract_message_number-message_payload :
    (n : ℕ) → extract_message_number (message_payload n) ≡ minus_one
unfolding extract_message_number number_at
extract_message_number-message_payload n =
    ap (λ o. number_at o (message_payload n))
      (find-IsWithout b'M' (text_of "essage ") (message_payload n) (message_payload-IsWithout n))
