-- ===== src/Crc/Serial.antt =====
-- The table-driven CRC is the bit-serial one: eight turns of `shift_bit` on the sum with each byte.
use Prim.Native.Nat.add
use native.Mathlib.Nat.{pow-suc, mul_assoc, suc-add}
use aeron_archive_replay.Base.{
  ℕ, zero, suc, ◌+◌, ◌*◌, ◌/◌, ◌%◌, ◌^◌, ◌<◌, ◌≡◌, ◌⊎◌, inl, inr, refl, sym, ap, ap₂, ◌∙◌, List, [],
  ◌∷◌, get_or, bit_and, bit_xor, bit_and_mask, bit_xor-half, bit_xor-parity, bit_xor-zero,
  bit_xor_comm, bit_xor_assoc, bit_xor-div, bit_xor_fields, arith, IsBytes, length, of_bytes,
}
use aeron_archive_replay.Crc.{
  polynomial, shift_bit, shift_bits, generate_entry, make_table, crc32_table, update, update_all,
}

-- What a turn adds to the halved number: the polynomial if the number is odd.
abbrev pub feedback : ℕ → ℕ
feedback x = x % 2 * polynomial

pub shift_bit_lem : (x : ℕ) → shift_bit x ≡ bit_xor (x / 2) (feedback x)
unfolding shift_bit
shift_bit_lem x = elim (parity_cases x) [
  | inl e ↦ ground (arith, bit_and_mask 1 x, bit_xor-zero (x / 2))
  | inr e ↦ ground (arith, bit_and_mask 1 x)
]
  where
    parity_cases : (x : ℕ) → (x % 2 ≡ 0) ⊎ (x % 2 ≡ 1)
    parity_cases x = omega arith

xor_swap_middle :
    (a b c d : ℕ) → bit_xor (bit_xor a b) (bit_xor c d) ≡ bit_xor (bit_xor a c) (bit_xor b d)
xor_swap_middle a b c d =
    bit_xor_assoc a b (bit_xor c d)
    ∙ ap (bit_xor a)
        (sym (bit_xor_assoc b c d) ∙ ap (λ x. bit_xor x d) (bit_xor_comm b c) ∙ bit_xor_assoc c b d)
    ∙ sym (bit_xor_assoc a c (bit_xor b d))

feedback-bit_xor : (x y : ℕ) → feedback (bit_xor x y) ≡ bit_xor (feedback x) (feedback y)
feedback-bit_xor x y =
    ap (λ n. n * polynomial) (bit_xor-parity x y ∙ sums)
    ∙ table (x % 2) (y % 2) (omega arith) (omega arith)
  where
    sums : (x + y) % 2 ≡ (x % 2 + y % 2) % 2
    sums = omega arith

    table :
        (a b : ℕ)
        → a < 2
        → b < 2
        → (a + b) % 2 * polynomial ≡ bit_xor (a * polynomial) (b * polynomial)
    table zero zero p q = refl
    table zero (suc zero) p q = refl
    table (suc zero) zero p q = refl
    table (suc zero) (suc zero) p q = refl
    table (suc (suc a)) b p q = absurd (omega arith)
    table a (suc (suc b)) p q = absurd (omega arith)

-- One turn is linear.
shift_bit-bit_xor : (x y : ℕ) → shift_bit (bit_xor x y) ≡ bit_xor (shift_bit x) (shift_bit y)
shift_bit-bit_xor x y =
    shift_bit_lem (bit_xor x y)
    ∙ ap₂ bit_xor (bit_xor-half x y) (feedback-bit_xor x y)
    ∙ xor_swap_middle (x / 2) (y / 2) (feedback x) (feedback y)
    ∙ sym (ap₂ bit_xor (shift_bit_lem x) (shift_bit_lem y))

pub shift_bits-bit_xor :
    (n x y : ℕ) → shift_bits n (bit_xor x y) ≡ bit_xor (shift_bits n x) (shift_bits n y)
unfolding shift_bits
shift_bits-bit_xor zero x y = refl
shift_bits-bit_xor (suc n) x y =
    ap (shift_bits n) (shift_bit-bit_xor x y) ∙ shift_bits-bit_xor n (shift_bit x) (shift_bit y)

shift_bit_double : (x : ℕ) → shift_bit (x * 2) ≡ x
shift_bit_double x =
    shift_bit_lem (x * 2)
    ∙ ap₂ bit_xor (double_half x) (ap (λ n. n * polynomial) (double_parity x))
    ∙ bit_xor-zero x
  where
    double_half : (x : ℕ) → x * 2 / 2 ≡ x
    double_half x = omega arith

    double_parity : (x : ℕ) → x * 2 % 2 ≡ 0
    double_parity x = omega arith

-- Shifting out digits that are zero is division.
pub shift_bits_mul : (n x : ℕ) → shift_bits n (x * 2 ^ n) ≡ x
unfolding shift_bits
shift_bits_mul zero x = omega arith
shift_bits_mul (suc n) x =
    ap (λ m. shift_bits n (shift_bit m))
      (ap (λ m. x * m) (pow-suc 2 n) ∙ sym (mul_assoc x (2 ^ n) 2))
    ∙ ap (shift_bits n) (shift_bit_double (x * 2 ^ n))
    ∙ shift_bits_mul n x

-- The `i`-th entry of the table.
get_or-make_table :
    (start n i : ℕ) → i < n → get_or (make_table start n) i 0 ≡ generate_entry (start + i)
unfolding make_table
get_or-make_table start zero i h = absurd (omega arith)
get_or-make_table start (suc n) zero h = ap generate_entry (omega arith)
get_or-make_table start (suc n) (suc i) h =
    get_or-make_table (start + 1) n i (omega arith) ∙ ap generate_entry (omega arith)

entry : (i : ℕ) → i < 256 → get_or crc32_table i 0 ≡ shift_bits 8 i
unfolding crc32_table
entry i h = get_or-make_table 0 256 i h ∙ as_generated (0 + i) ∙ ap (shift_bits 8) (omega arith)
  where
    as_generated : (j : ℕ) → generate_entry j ≡ shift_bits 8 j
    as_generated j = refl

-- The table-driven step on a byte is eight bit-serial turns on the exclusive or of the register
-- and the byte.
pub update_lem : (crc byte : ℕ) → byte < 256 → update crc byte ≡ shift_bits 8 (bit_xor crc byte)
unfolding update
update_lem crc byte h =
    ap₂ bit_xor register (looked_up)
    ∙ sym (
        ap (shift_bits 8) (sum ∙ sym (bit_xor_fields 8 (y / 2 ^ 8) (y % 2 ^ 8) (omega arith)))
        ∙ shift_bits-bit_xor 8 (y / 2 ^ 8 * 2 ^ 8) (y % 2 ^ 8)
        ∙ ap (λ m. bit_xor m (shift_bits 8 (y % 2 ^ 8))) (shift_bits_mul 8 (y / 2 ^ 8)))
  where
    y : ℕ
    y = bit_xor crc byte

    sum : y ≡ y / 2 ^ 8 * 2 ^ 8 + y % 2 ^ 8
    sum = omega arith

    register : crc / 2 ^ 8 ≡ y / 2 ^ 8
    register = sym (
        bit_xor-div 8 crc byte
        ∙ ap (bit_xor (crc / 2 ^ 8)) (omega arith)
        ∙ bit_xor-zero (crc / 2 ^ 8))

    looked_up : get_or crc32_table (bit_and y 0xff) 0 ≡ shift_bits 8 (y % 2 ^ 8)
    looked_up =
        ap (λ i. get_or crc32_table i 0) (bit_and_mask 8 y) ∙ entry (y % 2 ^ 8) (omega arith)

shift_bits_add : (m n x : ℕ) → shift_bits m (shift_bits n x) ≡ shift_bits (n + m) x
unfolding shift_bits
shift_bits_add m zero x = ap (λ k. shift_bits k x) (sym (add.zero m))
shift_bits_add m (suc n) x =
    shift_bits_add m n (shift_bit x) ∙ ap (λ k. shift_bits k x) (sym (suc-add n m))

-- The table-driven loop over bytes gives the register after eight bit-serial turns for each byte
-- on the exclusive or of the register and the bytes as one little-endian number.
pub update_all_lem :
    (bytes : List ℕ) (crc : ℕ)
    → IsBytes bytes
    → update_all crc bytes ≡ shift_bits (8 * length bytes) (bit_xor crc (of_bytes bytes))
unfolding update_all of_bytes
update_all_lem [] crc h = sym (bit_xor-zero crc)
update_all_lem (b ∷ bs) crc h =
    update_all_lem bs (update crc b) h.1
    ∙ ap (shift_bits (8 * length bs)) (
        ap₂ bit_xor (update_lem crc b h.0) (sym (shift_bits_mul 8 (of_bytes bs)))
        ∙ sym (shift_bits-bit_xor 8 (bit_xor crc b) (of_bytes bs * 2 ^ 8)))
    ∙ shift_bits_add (8 * length bs) 8 (bit_xor (bit_xor crc b) (of_bytes bs * 2 ^ 8))
    ∙ ap₂ shift_bits turns joined
  where
    turns : 8 + 8 * length bs ≡ 8 * length (b ∷ bs)
    turns = omega arith

    joined : bit_xor (bit_xor crc b) (of_bytes bs * 2 ^ 8) ≡ bit_xor crc (b + 256 * of_bytes bs)
    joined =
        bit_xor_assoc crc b (of_bytes bs * 2 ^ 8)
        ∙ ap (bit_xor crc) (
            bit_xor_comm b (of_bytes bs * 2 ^ 8)
            ∙ bit_xor_fields 8 (of_bytes bs) b h.0
            ∙ omega arith)
