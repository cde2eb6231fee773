-- ===== src/Crc.antt =====
-- The CRC32 of subscriber/include/MessageBuffer.h (common/include/MessageBuffer.h is the same file).
-- A byte is a number below 256, and a `uint32_t` one below 2 ^ 32.
pub mod Serial
pub mod Detection
use aeron_archive_replay.Base.{
  ℕ, zero, suc, ◌+◌, ◌-◌, ◌*◌, ◌/◌, ◌%◌, ◌^◌, List, [], ◌∷◌, get_or, bit_and, bit_xor, ◌==◌,
  if◌then◌else◌,
}

abbrev pub polynomial : ℕ
polynomial = 0xedb88320

-- One turn of the loop of `generateCRC32Entry`.
unfoldable pub shift_bit : ℕ → ℕ
shift_bit crc = bit_xor (crc / 2) (if bit_and crc 1 == 0 then 0 else polynomial)

unfoldable pub shift_bits : ℕ → ℕ → ℕ
unfolding shift_bit
shift_bits zero crc = crc
shift_bits (suc i) crc = shift_bits i (shift_bit crc)

unfoldable pub generate_entry : ℕ → ℕ
unfolding shift_bits
generate_entry index = shift_bits 8 index

-- The `n` entries from `i` on.
unfoldable pub make_table : ℕ → ℕ → List ℕ
unfolding generate_entry
make_table i zero = []
make_table i (suc n) = generate_entry i ∷ make_table (i + 1) n

unfoldable pub crc32_table : List ℕ
unfolding make_table
crc32_table = make_table 0 256

-- One turn of the loops over bytes.
unfoldable pub update : ℕ → ℕ → ℕ
unfolding crc32_table
update crc byte =
    let index = bit_and (bit_xor crc byte) 0xff in
    bit_xor (crc / 2 ^ 8) (get_or crc32_table index 0)

unfoldable pub update_all : ℕ → List ℕ → ℕ
unfolding update
update_all crc [] = crc
update_all crc (b ∷ bs) = update_all (update crc b) bs

-- `~crc`
abbrev pub complement : ℕ → ℕ
complement crc = 2 ^ 32 - 1 - crc

unfoldable pub calculate_crc32 : List ℕ → ℕ
unfolding update_all
calculate_crc32 bytes = complement (update_all 0xffff_ffff bytes)
