-- ===== src/Ring/Size.antt =====
-- The template parameter `Size` of the queues, and the masks by `Size - 1` that it allows.
use native.Mathlib.Nat.{
  mod-eq_of_lt, add-zero, add-suc, mul-one, mul_assoc, pow-suc, pow-le-pow_right, one-le-pow,
}
use aeron_archive_replay.Ring.Index.{used, used_cases}
use aeron_archive_replay.Base.{
  ℕ, zero, suc, ◌+◌, ◌-◌, ◌*◌, ◌%◌, ◌^◌, ◌<◌, ◌≡◌, ap, sym, ◌∙◌, bit_and, bit_and_mask, add64,
  sub64, mod-eq_of_quotient, dec_lt, arith,
}

-- `static_assert`: the size is a power of 2; and it is a positive `size_t`.
pub record IsSize (size : ℕ) : Type 0 where
  pub exponent : ℕ
  pub is_power : size ≡ 2 ^ exponent
  pub is_positive : 0 < size
  pub fits : size < 2 ^ 64

module _ {size : ℕ} (s : IsSize size) where
  pub mask : (x : ℕ) → bit_and x (sub64 size 1) ≡ x % size
  mask x =
      ap (bit_and x) (less_one ∙ ap (λ n. n - 1) s.is_power)
      ∙ bit_and_mask s.exponent x
      ∙ ap (λ n. x % n) (omega arith)
    where
      less_one : sub64 size 1 ≡ size - 1
      less_one = omega (arith, s.fits, s.is_positive)

  -- `(idx + 1) & (Size - 1)`
  pub mask_next : (idx : ℕ) → idx < size → bit_and (add64 idx 1) (sub64 size 1) ≡ (idx + 1) % size
  mask_next idx h = mask (add64 idx 1) ∙ ap (λ n. n % size) (omega (arith, s.fits))

pow-add : (i j : ℕ) → 2 ^ (i + j) ≡ 2 ^ i * 2 ^ j
pow-add i zero = ap (λ n. 2 ^ n) (add-zero i) ∙ sym (mul-one (2 ^ i))
pow-add i (suc j) = omega (
  arith,
  ap (λ n. 2 ^ n) (add-suc i j),
  pow-suc 2 (i + j),
  pow-suc 2 j,
  ap (λ n. n * 2) (pow-add i j),
  mul_assoc (2 ^ i) (2 ^ j) 2,
  ap (λ n. 2 ^ i * n) (pow-suc 2 j),
)

below-64 : {size : ℕ} (s : IsSize size) → s.exponent < 64
below-64 {size} s = elim (dec_lt s.exponent 64) [
  | yes h ↦ h
  | no h ↦ absurd (
      omega (
        arith,
        s.fits,
        s.is_power,
        pow-le-pow_right {n = 2} (omega arith) {i = 64} {j = s.exponent} (omega arith),
      ))
]

-- The size divides 2 ^ 64.
wraps_evenly : {size : ℕ} → IsSize size → (m : ℕ) × (2 ^ 64 ≡ size * m + size)
wraps_evenly {size} s = (
  rest - 1,
  omega (
    arith,
    ap (λ n. n * rest) s.is_power,
    pow-add s.exponent (64 - s.exponent),
    ap (λ n. 2 ^ n) whole,
    ap (λ n. size * n) split,
  ),
)
  where
    rest : ℕ
    rest = 2 ^ (64 - s.exponent)

    split : rest ≡ rest - 1 + 1
    split = omega (arith, one-le-pow (64 - s.exponent) 2 (omega arith))

    whole : s.exponent + (64 - s.exponent) ≡ 64
    whole = omega (arith, below-64 s)

-- The masked difference of two indices is the number of slots between them.
pub mask_used :
    {size : ℕ} (s : IsSize size) (head tail : ℕ)
    → head < size
    → tail < size
    → bit_and (sub64 tail head) (sub64 size 1) ≡ used size head tail
mask_used {size} s head tail h t = mask s (sub64 tail head) ∙ elim (dec_lt tail head) [
  | yes lt ↦
      ap (λ n. n % size) (around lt)
      ∙ mod-eq_of_quotient size q (tail + size - head) (omega arith)
      ∙ omega (arith, used_cases size head tail h t)
  | no ge ↦
      ap (λ n. n % size) (omega (arith, s.fits))
      ∙ mod-eq_of_lt {n = tail - head} {m = size} (omega arith)
      ∙ omega (arith, used_cases size head tail h t)
]
  where
    q : ℕ
    q = (wraps_evenly s).0

    around : tail < head → sub64 tail head ≡ size * q + (tail + size - head)
    around lt = omega (arith, (wraps_evenly s).1)
