-- ===== src/Base/Digits.antt =====
-- The recursion on binary digits that the native bit operations stand for: `alone` takes what is left
-- of the second operand, `join` one digit of each.
use Prim.Native.Nat.{ℕ, zero, suc, ◌+◌, ◌*◌, ◌/◌, ◌%◌, ◌≤◌, digits}
use mathlib.Core.Path.{◌≡◌, refl}
use native.Mathlib.Omega.{arith}

module _ (alone : ℕ → ℕ) (join : ℕ → ℕ → ℕ) where
  abbrev pub folded : ℕ → ℕ → ℕ
  folded x y = digits alone join x x y

  enough_fuel : (x y i j : ℕ) → x ≤ i → x ≤ j → digits alone join i x y ≡ digits alone join j x y
  enough_fuel zero y zero zero h k = refl
  enough_fuel zero y zero (suc j) h k = refl
  enough_fuel zero y (suc i) zero h k = refl
  enough_fuel zero y (suc i) (suc j) h k = refl
  enough_fuel (suc x) y zero j h k = absurd (omega arith)
  enough_fuel (suc x) y (suc i) zero h k = absurd (omega arith)
  enough_fuel (suc x) y (suc i) (suc j) h k =
      omega (arith, enough_fuel (suc x / 2) (y / 2) i j (omega arith) (omega arith))

  -- The lowest digits are joined, and the halves are folded.
  pub folded-suc :
      (x y : ℕ) → folded (suc x) y ≡ folded (suc x / 2) (y / 2) * 2 + join (suc x % 2) (y % 2)
  folded-suc x y =
      omega (arith, enough_fuel (suc x / 2) (y / 2) x (suc x / 2) (omega arith) (omega arith))

-- Induction from a number's half.
pub halving : (P : ℕ → Type 0) → P zero → ((x : ℕ) → P (suc x / 2) → P (suc x)) → (x : ℕ) → P x
halving P base next x = below x x (omega arith)
  where
    below : (bound x : ℕ) → x ≤ bound → P x
    below bound zero h = base
    below zero (suc x) h = absurd (omega arith)
    below (suc bound) (suc x) h = next x (below bound (suc x / 2) (omega arith))
