-- ===== src/Base/Decimals.antt =====
-- A number that is printed in decimal digits is read back.
use Prim.Native.Nat.{ℕ, zero, suc, ◌+◌, ◌*◌, ◌/◌, ◌%◌, ◌^◌, ◌<◌}
use mathlib.Core.Path.{◌≡◌, refl, ap, sym, ◌∙◌}
use mathlib.Core.Bool.{Bool, true, false, not, ◌&&◌}
use mathlib.Core.Option.{Option, none, some}
use mathlib.Core.List.{[], ◌∷◌, ◌++◌, append_assoc, append-nil}
use mathlib.Core.Logic.{inl, inr, ◌≢◌}
use native.Mathlib.Nat.{pow-suc}
use native.Mathlib.Omega.{arith}
use aeron_archive_replay.Base.Lists.{length, length-append}
use aeron_archive_replay.Base.Tests.{
  ◌==◌, ==_iff, if◌then◌else◌, if_true, if_false, lt→ltb, Bool-cases,
}
use aeron_archive_replay.Base.Texts.{
  Text, text_of, starts_with, find, is_digit, is_space, skip_spaces, number_from, parse_signed,
  decimal_within, decimal,
}

abbrev pub IsDigits : Text → Type 0
IsDigits [] = Unit
IsDigits (c ∷ t) = (is_digit c ≡ true) × IsDigits t

IsDigits-append : (s t : Text) → IsDigits s → IsDigits t → IsDigits (s ++ t)
IsDigits-append [] t p q = q
IsDigits-append (c ∷ s) t p q = (p.0, IsDigits-append s t p.1 q)

digit-is_digit : (n : ℕ) → is_digit (b'0' + n % 10) ≡ true
digit-is_digit n = ground arith

if_nil-IsDigits : (b : Bool) (t : Text) → IsDigits t → IsDigits (if b then [] else t)
if_nil-IsDigits true t p = tt
if_nil-IsDigits false t p = p

pub decimal_within-IsDigits : (digits n : ℕ) → IsDigits (decimal_within digits n)
unfolding decimal_within
decimal_within-IsDigits zero n = tt
decimal_within-IsDigits (suc digits) n =
    IsDigits-append (if n / 10 == 0 then [] else decimal_within digits (n / 10)) _
      (if_nil-IsDigits (n / 10 == 0) _ (decimal_within-IsDigits digits (n / 10)))
      (digit-is_digit n, tt)

number_from-digit :
    (acc n : ℕ) (rest : Text)
    → number_from acc ((b'0' + n % 10) ∷ rest) ≡ number_from (acc * 10 + n % 10) rest
unfolding number_from
number_from-digit acc n rest =
    if_true _ (digit-is_digit n) ∙ ap (λ k. number_from (acc * 10 + k) rest) (omega arith)

-- Enough digits are printed for the number to be read back, whatever stands behind them.
pub number_from-decimal_within :
    (digits n : ℕ) (rest : Text)
    → n < 10 ^ digits
    → number_from 0 (decimal_within digits n ++ rest) ≡ number_from n rest
unfolding decimal_within
number_from-decimal_within zero n rest h = ap (λ k. number_from k rest) (omega arith)
number_from-decimal_within (suc digits) n rest h =
    let front = decimal_within digits (n / 10) in
    let last : Text = (b'0' + n % 10) ∷ [] in
    append_first (if n / 10 == 0 then [] else front) last ∙ elim (Bool-cases (n / 10 == 0)) [
      | inl small ↦
          ap (λ (s : Text). number_from 0 (s ++ (b'0' + n % 10) ∷ rest)) (if_true front small)
          ∙ number_from-digit 0 n rest
          ∙ ap (λ k. number_from k rest) (omega (arith, (==_iff (n / 10) 0).0 small))
      | inr large ↦
          ap (λ (s : Text). number_from 0 (s ++ (b'0' + n % 10) ∷ rest)) (if_false [] large)
          ∙ number_from-decimal_within digits (n / 10) ((b'0' + n % 10) ∷ rest)
              (omega (arith, pow-suc 10 digits))
          ∙ number_from-digit (n / 10) n rest
          ∙ ap (λ k. number_from k rest) (omega arith)
    ]
  where
    append_first :
        (s t : Text) → number_from 0 ((s ++ t) ++ rest) ≡ number_from 0 (s ++ (t ++ rest))
    append_first s t = ap (number_from 0) (append_assoc s t rest)

number_from-nil : (n : ℕ) → number_from n [] ≡ n
unfolding number_from
number_from-nil n = refl

-- Digits are read as a number of its own: there is no space and no sign before them.
parse_signed-digits :
    (c : ℕ) (t : Text)
    → is_digit c ≡ true
    → number_from 0 (c ∷ t) < 2 ^ 63
    → parse_signed 64 (c ∷ t) ≡ some (number_from 0 (c ∷ t))
unfolding parse_signed skip_spaces
parse_signed-digits c t digit h =
    rw (no_space, no_minus, no_plus)
      (if_false none (ap not digit) ∙ if_true none (lt→ltb (number_from 0 (c ∷ t)) (2 ^ 63) h))
  where
    no_space : is_space c ≡ false
    no_space = ground arith

    no_minus : (c == b'-') ≡ false
    no_minus = ground arith

    no_plus : (c == b'+') ≡ false
    no_plus = ground arith

parse_signed-IsDigits :
    (s : Text)
    → IsDigits s
    → 0 < length s
    → number_from 0 s < 2 ^ 63
    → parse_signed 64 s ≡ some (number_from 0 s)
parse_signed-IsDigits [] p some_digit h = absurd (omega arith)
parse_signed-IsDigits (c ∷ t) p some_digit h = parse_signed-digits c t p.0 h

length-decimal : (n : ℕ) → 0 < length (decimal n)
unfolding decimal decimal_within
length-decimal n = omega (
  arith,
  length-append (if n / 10 == 0 then [] else decimal_within 19 (n / 10)) ((b'0' + n % 10) ∷ []),
)

-- A number of 63 bits is printed in digits that `stoll` reads as this number.
pub parse_signed-decimal : (n : ℕ) → n < 2 ^ 63 → parse_signed 64 (decimal n) ≡ some n
unfolding decimal
parse_signed-decimal n h =
    let value : number_from 0 (decimal n) ≡ n =
      ap (number_from 0) (sym (append-nil (decimal n)))
      ∙ number_from-decimal_within 20 n [] (omega arith)
      ∙ number_from-nil n in
    parse_signed-IsDigits (decimal n) (decimal_within-IsDigits 20 n) (length-decimal n)
      (omega (arith, value))
    ∙ ap some value

-- The first space stands behind the digits.
pub find-IsDigits :
    (s rest : Text) → IsDigits s → find (text_of " ") (s ++ b' ' ∷ rest) ≡ some (length s)
unfolding find starts_with
find-IsDigits [] rest p = refl
find-IsDigits (c ∷ s) rest p =
    if_false {b = b' ' == c && true} (some 0) (ground (arith, p.0))
    ∙ ap (λ (o : Option ℕ). elim o [ none ↦ none | some i ↦ some (suc i) ])
        (find-IsDigits s rest p.1)

-- Nowhere does the text have the byte.
abbrev pub IsWithout : ℕ → Text → Type 0
IsWithout b [] = Unit
IsWithout b (c ∷ t) = (b ≢ c) × IsWithout b t

pub IsWithout-append : (b : ℕ) (s t : Text) → IsWithout b s → IsWithout b t → IsWithout b (s ++ t)
IsWithout-append b [] t p q = q
IsWithout-append b (c ∷ s) t p q = (p.0, IsWithout-append b s t p.1 q)

pub IsDigits-IsWithout : (b : ℕ) (s : Text) → is_digit b ≡ false → IsDigits s → IsWithout b s
IsDigits-IsWithout b [] h p = tt
IsDigits-IsWithout b (c ∷ s) h p = (other, IsDigits-IsWithout b s h p.1)
  where
    other : b ≢ c
    other = ground (arith, h, p.0)

pub find-IsWithout : (b : ℕ) (part t : Text) → IsWithout b t → find (b ∷ part) t ≡ none
unfolding find starts_with
find-IsWithout b part [] p = refl
find-IsWithout b part (c ∷ t) p =
    if_false (some 0) (ap (λ e. e && starts_with part t) other)
    ∙ ap (λ (o : Option ℕ). elim o [ none ↦ none | some i ↦ some (suc i) ])
        (find-IsWithout b part t p.1)
  where
    other : (b == c) ≡ false
    other = ground (arith, p.0)
