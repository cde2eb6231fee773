-- ===== src/Base/Bits.antt =====
-- Laws of `bit_and` with a low mask.
use Prim.Native.Nat.{ℕ, zero, suc, ◌+◌, ◌-◌, ◌*◌, ◌/◌, ◌%◌, ◌^◌, ◌<◌, min, bit_and, bit_and-bitwise}
use mathlib.Core.Path.{◌≡◌, sym, ap, ◌∙◌}
use aeron_archive_replay.Base.Digits.{folded-suc, halving}
use native.Mathlib.Nat.{
  pow-suc, one-le-pow, mul-add-mod_self_left, mod-eq_of_lt, mod-lt, div-add-mod, mul_comm,
}
use native.Mathlib.Omega.{arith}

-- The lowest digit of a conjunction, and the others.
bit_and-digits : (x y : ℕ) → bit_and x y ≡ bit_and (x / 2) (y / 2) * 2 + min (x % 2) (y % 2)
bit_and-digits zero y = omega (arith, bit_and-bitwise zero y, bit_and-bitwise zero (y / 2))
bit_and-digits (suc x) y =
    bit_and-bitwise (suc x) y
    ∙ folded-suc (λ rest. zero) min x y
    ∙ ap (λ n. n * 2 + min (suc x % 2) (y % 2)) (sym (bit_and-bitwise (suc x / 2) (y / 2)))

bit_and-zero : (x : ℕ) → bit_and x 0 ≡ 0
bit_and-zero =
    halving (λ x. bit_and x 0 ≡ 0) (bit_and-bitwise zero 0)
      (λ x half. omega (arith, bit_and-digits (suc x) 0, half))

-- A remainder is fixed by any quotient that leaves a rest below the divisor.
pub mod-eq_of_quotient : (m q r : ℕ) → r < m → (m * q + r) % m ≡ r
mod-eq_of_quotient m q r h = mul-add-mod_self_left m q r ∙ mod-eq_of_lt h

halves-mod : (a p : ℕ) → 0 < p → a % (2 * p) ≡ a / 2 % p * 2 + a % 2
halves-mod a p h =
    ap (λ n. n % (2 * p)) split
    ∙ mod-eq_of_quotient (2 * p) (a / 2 / p) (a / 2 % p * 2 + a % 2)
        (omega (arith, mod-lt (a / 2) h))
  where
    split : a ≡ 2 * p * (a / 2 / p) + (a / 2 % p * 2 + a % 2)
    split = omega (arith, div-add-mod (a / 2) p)

-- A mask of `k` ones takes the remainder by `2 ^ k`.
pub bit_and_mask : (k a : ℕ) → bit_and a (2 ^ k - 1) ≡ a % 2 ^ k
bit_and_mask zero a = rw bit_and-zero (omega arith)
bit_and_mask (suc k) a = rw pow-suc (
    omega (
      arith,
      one-le-pow k 2 (omega arith),
      bit_and-digits a (2 ^ k * 2 - 1),
      bit_and_mask k (a / 2),
      ap (bit_and (a / 2)) halved,
      halves-mod a (2 ^ k) (one-le-pow k 2 (omega arith)),
      ap (λ n. a % n) (mul_comm 2 (2 ^ k)),
    ))
  where
    halved : (2 ^ k * 2 - 1) / 2 ≡ 2 ^ k - 1
    halved = omega (arith, one-le-pow k 2 (omega arith))
