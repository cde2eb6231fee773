-- ===== src/Base/Word.antt =====
-- Fixed-width words as native numbers. A `uint64_t`, a `size_t` and an `int64_t` are the number of
-- their bit pattern, below 2 ^ 64; signed tests read a pattern through `bias`.
use Prim.Native.Nat.{ℕ, ◌+◌, ◌-◌, ◌%◌, ◌^◌}
use mathlib.Core.Bool.{Bool}
use aeron_archive_replay.Base.Tests.{ltb}

abbrev pub u32 : ℕ → ℕ
u32 n = n % 2 ^ 32

abbrev pub u64 : ℕ → ℕ
u64 n = n % 2 ^ 64

abbrev pub add64 : ℕ → ℕ → ℕ
add64 a b = u64 (a + b)

-- `a - b`, wrapping; `b` is below 2 ^ 64.
abbrev pub sub64 : ℕ → ℕ → ℕ
sub64 a b = u64 (a + 2 ^ 64 - b)

-- -1 as an `int64_t`.
abbrev pub minus_one : ℕ
minus_one = 2 ^ 64 - 1

-- The order of patterns read as `int64_t` is the order of their biased values.
abbrev pub bias : ℕ → ℕ
bias n = (n + 2 ^ 63) % 2 ^ 64

abbrev pub slt : ℕ → ℕ → Bool
slt a b = ltb (bias a) (bias b)
