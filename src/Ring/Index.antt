-- ===== src/Ring/Index.antt =====
-- Head and tail indices of a ring of `size` slots.
use native.Mathlib.Nat.{mod-eq_of_lt, mod-eq-sub-mod}
use aeron_archive_replay.Base.{
  ℕ, suc, ◌+◌, ◌-◌, ◌%◌, ◌≤◌, ◌<◌, ◌≡◌, ◌≢◌, ◌⊎◌, inl, inr, arith, dec_lt,
}

-- One turn round the ring at most: the remainder is the number or the number less `size`.
pub mod_cases :
    (x size : ℕ)
    → x < size + size
    → ((x < size) × (x % size ≡ x)) ⊎ ((size ≤ x) × (x % size + size ≡ x))
mod_cases x size h = elim (dec_lt x size) [
  | yes p ↦ inl (p, mod-eq_of_lt p)
  | no p ↦ inr (
    omega arith,
    omega (
      arith,
      mod-eq-sub-mod {n = x} {m = size} (omega arith),
      mod-eq_of_lt {n = x - size} {m = size} (omega arith),
    ),
  )
]

-- How many slots lie from `head` up to `tail`.
pub used : ℕ → ℕ → ℕ → ℕ
used size head tail = (tail + size - head) % size

pub used-lt : (size head tail : ℕ) → 0 < size → used size head tail < size
unfolding used
used-lt size head tail h = omega arith

-- The tail is `used` steps after the head.
pub add-used :
    (size head tail : ℕ) → head < size → tail < size → (head + used size head tail) % size ≡ tail
unfolding used
add-used size head tail h t = omega (
  arith,
  mod_cases (tail + size - head) size (omega arith),
  mod_cases (head + used size head tail) size (omega (arith, used-lt size head tail (omega arith))),
)

pub used_self : (size head : ℕ) → head < size → used size head head ≡ 0
unfolding used
used_self size head h = omega (arith, mod_cases (head + size - head) size (omega arith))

pub used_ne :
    (size head tail : ℕ) → head < size → tail < size → head ≢ tail → 0 < used size head tail
unfolding used
used_ne size head tail h t ne = omega (arith, mod_cases (tail + size - head) size (omega arith))

pub used_cases :
    (size head tail : ℕ)
    → head < size
    → tail < size
    → ((head ≤ tail) × (used size head tail + head ≡ tail))
      ⊎ ((tail < head) × (used size head tail + head ≡ tail + size))
unfolding used
used_cases size head tail h t = omega (arith, mod_cases (tail + size - head) size (omega arith))

-- Where the next tail is not the head, a step of the tail adds one slot.
pub used-tail :
    (size head tail : ℕ)
    → head < size
    → tail < size
    → (tail + 1) % size ≢ head
    → used size head ((tail + 1) % size) ≡ suc (used size head tail)
unfolding used
used-tail size head tail h t ne = omega (
  arith,
  mod_cases (tail + 1) size (omega arith),
  mod_cases (tail + size - head) size (omega arith),
  mod_cases ((tail + 1) % size + size - head) size (omega arith),
)

-- The next tail is the head exactly when `size - 1` slots are used.
pub used_full :
    (size head tail : ℕ)
    → head < size
    → tail < size
    → (tail + 1) % size ≡ head
    → used size head tail + 1 ≡ size
unfolding used
used_full size head tail h t e = omega (
  arith,
  mod_cases (tail + 1) size (omega arith),
  mod_cases (tail + size - head) size (omega arith),
)

-- A step of the head takes one slot away.
pub used-head :
    (size head tail : ℕ)
    → head < size
    → tail < size
    → head ≢ tail
    → used size head tail ≡ suc (used size ((head + 1) % size) tail)
unfolding used
used-head size head tail h t ne = omega (
  arith,
  mod_cases (head + 1) size (omega arith),
  mod_cases (tail + size - head) size (omega arith),
  mod_cases (tail + size - (head + 1) % size) size (omega arith),
)

-- Different distances below `size` lead to different slots.
pub slot_ne :
    (size head i n : ℕ) → head < size → i < n → n < size → (head + n) % size ≢ (head + i) % size
slot_ne size head i n h p q e =
    omega (arith, mod_cases (head + n) size (omega arith), mod_cases (head + i) size (omega arith))

-- Going on from the next slot, fewer than `size` steps do not lead back to the head.
pub slot_ne_behind :
    (size head i : ℕ) → head < size → suc i < size → head ≢ ((head + 1) % size + i) % size
slot_ne_behind size head i h p e = omega (
  arith,
  mod_cases (head + 1) size (omega arith),
  mod_cases ((head + 1) % size + i) size (omega arith),
)

pub next_injective : (size i j : ℕ) → i < size → j < size → (i + 1) % size ≡ (j + 1) % size → i ≡ j
next_injective size i j p q e =
    omega (arith, mod_cases (i + 1) size (omega arith), mod_cases (j + 1) size (omega arith))
