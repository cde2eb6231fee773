-- ===== src/AeronSubscriber/Legacy.antt =====
-- `extractMessageNumber`: the number in the text of a message.
use aeron_archive_replay.Base.{
  ℕ, ◌+◌, ◌^◌, ◌<◌, ◌≡◌, refl, ap, ◌∙◌, Option, none, some, ◌∷◌, ◌++◌, length, take, drop,
  take-append_left, minus_one, Text, text_of, find, starts_with, parse_signed, decimal,
  decimal_within, decimal_within-IsDigits, parse_signed-decimal, find-IsDigits,
}

unfoldable pub or_minus_one : Option ℕ → ℕ
or_minus_one none = minus_one
or_minus_one (some n) = n

-- From the number to the space behind it.
unfoldable pub number_before : Option ℕ → Text → ℕ
unfolding or_minus_one
number_before none text = minus_one
number_before (some num_end) text = or_minus_one (parse_signed 64 (take num_end text))

unfoldable pub number_at : Option ℕ → Text → ℕ
unfolding number_before
number_at none message = minus_one
number_at (some msg_pos) message =
    let text = drop (msg_pos + 8) message in number_before (find (text_of " ") text) text

unfoldable pub extract_message_number : Text → ℕ
unfolding number_at
extract_message_number message = number_at (find (text_of "Message ") message) message

find-digits :
    (n : ℕ) (rest : Text)
    → find (text_of " ") (decimal n ++ b' ' ∷ rest) ≡ some (length (decimal n))
unfolding decimal
find-digits n rest = find-IsDigits (decimal_within 20 n) rest (decimal_within-IsDigits 20 n)

-- A text that begins with "Message ", the decimal digits of a number of 63 bits and a space has
-- this number.
pub extract_message_number-decimal :
    (n : ℕ) (rest : Text)
    → n < 2 ^ 63
    → extract_message_number (text_of "Message " ++ (decimal n ++ b' ' ∷ rest)) ≡ n
unfolding extract_message_number number_at number_before or_minus_one find starts_with
extract_message_number-decimal n rest h =
    let text = decimal n ++ b' ' ∷ rest in
    ap (λ o. number_before o text) (find-digits n rest)
    ∙ ap (λ t. or_minus_one (parse_signed 64 t))
        (take-append_left (decimal n) (b' ' ∷ rest) (length (decimal n)) refl)
    ∙ ap or_minus_one (parse_signed-decimal n h)
