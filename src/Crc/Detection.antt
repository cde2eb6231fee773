-- ===== src/Crc/Detection.antt =====
-- What the CRC32 detects.
use native.Mathlib.Nat.{pow-le-pow_right}
use aeron_archive_replay.Base.{
  ℕ, zero, suc, ◌*◌, ◌/◌, ◌%◌, ◌^◌, ◌<◌, ◌≤◌, ◌≡◌, ◌≢◌, refl, sym, ap, ap₂, ◌∙◌, List, [], ◌∷◌,
  ◌++◌, bit_xor, zero-bit_xor, bit_xor-div, bit_xor-lt, bit_xor_cancel_left, bit_xor_cancel_right,
  IsBytes, of_bytes, of_bytes-lt, of_bytes_injective, length, arith,
}
use aeron_archive_replay.Crc.Serial.{feedback, shift_bit_lem, update_lem, update_all_lem}
use aeron_archive_replay.Crc.{
  polynomial, shift_bit, shift_bits, update, update_all, calculate_crc32,
}

feedback-lt : (x : ℕ) → feedback x < 2 ^ 32
feedback-lt x = omega arith

shift_bit-lt : (x : ℕ) → x < 2 ^ 32 → shift_bit x < 2 ^ 32
shift_bit-lt x h =
    rw (shift_bit_lem x) (bit_xor-lt 32 (x / 2) (feedback x) (omega arith) (feedback-lt x))

-- The top digit of a turn's result is the digit that was shifted out.
top-shift_bit : (x : ℕ) → x < 2 ^ 32 → shift_bit x / 2 ^ 31 ≡ x % 2
top-shift_bit x h =
    ap (λ n. n / 2 ^ 31) (shift_bit_lem x)
    ∙ bit_xor-div 31 (x / 2) (feedback x)
    ∙ ap₂ bit_xor (cleared x h) (carried x)
    ∙ zero-bit_xor (x % 2)
  where
    cleared : (x : ℕ) → x < 2 ^ 32 → x / 2 / 2 ^ 31 ≡ 0
    cleared x h = omega arith

    carried : (x : ℕ) → feedback x / 2 ^ 31 ≡ x % 2
    carried x = omega arith

shift_bit_injective : (x y : ℕ) → x < 2 ^ 32 → y < 2 ^ 32 → shift_bit x ≡ shift_bit y → x ≡ y
shift_bit_injective x y p q e = omega (arith, parity, halves)
  where
    parity : x % 2 ≡ y % 2
    parity = sym (top-shift_bit x p) ∙ ap (λ n. n / 2 ^ 31) e ∙ top-shift_bit y q

    halves : x / 2 ≡ y / 2
    halves = bit_xor_cancel_right (x / 2) (y / 2) (feedback x) (
        sym (shift_bit_lem x)
        ∙ e
        ∙ shift_bit_lem y
        ∙ ap (λ n. bit_xor (y / 2) (n * polynomial)) (sym parity))

shift_bits-lt : (n x : ℕ) → x < 2 ^ 32 → shift_bits n x < 2 ^ 32
unfolding shift_bits
shift_bits-lt zero x h = h
shift_bits-lt (suc n) x h = shift_bits-lt n (shift_bit x) (shift_bit-lt x h)

shift_bits_injective :
    (n x y : ℕ) → x < 2 ^ 32 → y < 2 ^ 32 → shift_bits n x ≡ shift_bits n y → x ≡ y
unfolding shift_bits
shift_bits_injective zero x y p q e = e
shift_bits_injective (suc n) x y p q e =
    shift_bit_injective x y p q
      (shift_bits_injective n (shift_bit x) (shift_bit y) (shift_bit-lt x p) (shift_bit-lt y q) e)

xor_byte-lt : (crc byte : ℕ) → crc < 2 ^ 32 → byte < 256 → bit_xor crc byte < 2 ^ 32
xor_byte-lt crc byte h b = bit_xor-lt 32 crc byte h (omega arith)

pub update-lt : (crc byte : ℕ) → crc < 2 ^ 32 → byte < 256 → update crc byte < 2 ^ 32
update-lt crc byte h b =
    rw (update_lem crc byte b) (shift_bits-lt 8 (bit_xor crc byte) (xor_byte-lt crc byte h b))

pub update_sum_injective :
    (c d a b : ℕ)
    → c < 2 ^ 32
    → d < 2 ^ 32
    → a < 256
    → b < 256
    → update c a ≡ update d b
    → bit_xor c a ≡ bit_xor d b
update_sum_injective c d a b hc hd ha hb e =
    shift_bits_injective 8 (bit_xor c a) (bit_xor d b) (xor_byte-lt c a hc ha)
      (xor_byte-lt d b hd hb) (sym (update_lem c a ha) ∙ e ∙ update_lem d b hb)

update_all-lt :
    (bytes : List ℕ) (crc : ℕ) → IsBytes bytes → crc < 2 ^ 32 → update_all crc bytes < 2 ^ 32
unfolding update_all
update_all-lt [] crc k h = h
update_all-lt (b ∷ bs) crc k h = update_all-lt bs (update crc b) k.1 (update-lt crc b h k.0)

-- Different registers stay different over the same bytes.
update_all_injective :
    (bytes : List ℕ) (c d : ℕ)
    → IsBytes bytes
    → c < 2 ^ 32
    → d < 2 ^ 32
    → update_all c bytes ≡ update_all d bytes
    → c ≡ d
unfolding update_all
update_all_injective [] c d k hc hd e = e
update_all_injective (b ∷ bs) c d k hc hd e = bit_xor_cancel_right c d b (
    update_sum_injective c d b b hc hd k.0 k.0 (
      update_all_injective bs (update c b) (update d b) k.1 (update-lt c b hc k.0)
        (update-lt d b hd k.0) e))

pub update_all-append :
    (xs ys : List ℕ) (crc : ℕ) → update_all crc (xs ++ ys) ≡ update_all (update_all crc xs) ys
unfolding update_all
update_all-append [] ys crc = refl
update_all-append (x ∷ xs) ys crc = update_all-append xs ys (update crc x)

-- From one register, different byte strings of the same length of at most four lead to different
-- registers.
update_all_word :
    (xs ys : List ℕ) (crc : ℕ)
    → IsBytes xs
    → IsBytes ys
    → length xs ≡ length ys
    → length xs ≤ 4
    → crc < 2 ^ 32
    → update_all crc xs ≡ update_all crc ys
    → xs ≡ ys
update_all_word xs ys crc hx hy l four h e = of_bytes_injective xs ys hx hy l (
    bit_xor_cancel_left (of_bytes xs) (of_bytes ys) crc (
      shift_bits_injective (8 * length xs) _ _ (sum-lt xs hx four) (sum-lt ys hy (omega arith)) (
        sym (update_all_lem xs crc hx)
        ∙ e
        ∙ update_all_lem ys crc hy
        ∙ ap (λ k. shift_bits (8 * k) (bit_xor crc (of_bytes ys))) (sym l))))
  where
    sum-lt : (bs : List ℕ) → IsBytes bs → length bs ≤ 4 → bit_xor crc (of_bytes bs) < 2 ^ 32
    sum-lt bs hb le = bit_xor-lt 32 crc (of_bytes bs) h (omega (arith, of_bytes-lt bs hb, widest))
      where
        widest : 256 ^ length bs ≤ 256 ^ 4
        widest = pow-le-pow_right (omega arith) le

-- Byte strings of the same length that differ only within four bytes in a row have different
-- checksums.
pub burst_detected :
    (before xs ys after : List ℕ)
    → IsBytes before
    → IsBytes xs
    → IsBytes ys
    → IsBytes after
    → length xs ≡ length ys
    → length xs ≤ 4
    → xs ≢ ys
    → calculate_crc32 (before ++ (xs ++ after)) ≢ calculate_crc32 (before ++ (ys ++ after))
unfolding calculate_crc32
burst_detected before xs ys after hb hx hy ha l four ne e = ne (
    update_all_word xs ys start hx hy l four start-lt (
      update_all_injective after (update_all start xs) (update_all start ys) ha (below xs hx)
        (below ys hy) registers))
  where
    start : ℕ
    start = update_all 0xffff_ffff before

    start-lt : start < 2 ^ 32
    start-lt = update_all-lt before 0xffff_ffff hb (omega arith)

    below : (w : List ℕ) → IsBytes w → update_all start w < 2 ^ 32
    below w hw = update_all-lt w start hw start-lt

    whole :
        (w : List ℕ)
        → update_all 0xffff_ffff (before ++ (w ++ after)) ≡ update_all (update_all start w) after
    whole w = update_all-append before (w ++ after) 0xffff_ffff ∙ update_all-append w after start

    registers : update_all (update_all start xs) after ≡ update_all (update_all start ys) after
    registers = omega (
      arith,
      e,
      whole xs,
      whole ys,
      update_all-lt after (update_all start xs) ha (below xs hx),
      update_all-lt after (update_all start ys) ha (below ys hy),
    )
