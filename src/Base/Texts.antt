-- ===== src/Base/Texts.antt =====
-- Texts as lists of bytes, and what the program takes of the C++ library on them.
use Prim.Native.Char.{code}
use Prim.Native.String.{String}
use Prim.Native.Nat.{ℕ, zero, suc, ◌+◌, ◌-◌, ◌*◌, ◌/◌, ◌%◌, ◌^◌, ◌≤◌, min}
use mathlib.Core.Bool.{Bool, true, false, not, ◌&&◌, ◌||◌}
use mathlib.Core.Option.{Option, none, some}
use mathlib.Core.List.{List, [], ◌∷◌, ◌++◌}
use aeron_archive_replay.Base.Tests.{ltb, leb, ◌==◌, ==_iff, and_both, if◌then◌else◌}
use mathlib.Core.Path.{◌≡◌, refl, ap₂}
use aeron_archive_replay.Base.Lists.{length, length-append}
use native.Mathlib.Omega.{arith}

abbrev pub Text : Type 0
Text = List ℕ

-- The bytes of an ASCII literal.
abbrev pub text_of : String → Text
text_of String.[] = []
text_of (String.◌∷◌ letter letters) = code letter ∷ text_of letters

abbrev pub is_empty : Text → Bool
is_empty [] = true
is_empty (c ∷ t) = false

-- `==` of two texts.
unfoldable pub same_text : Text → Text → Bool
same_text [] [] = true
same_text (x ∷ xs) (y ∷ ys) = x == y && same_text xs ys
same_text _ _ = false

pub same_text_eq : (a b : Text) → same_text a b ≡ true → a ≡ b
unfolding same_text
same_text_eq [] [] e = refl
same_text_eq [] (y ∷ b) e = absurd (ground arith)
same_text_eq (x ∷ a) [] e = absurd (ground arith)
same_text_eq (x ∷ a) (y ∷ b) e =
    let k = and_both (x == y) (same_text a b) e in
    ap₂ ◌∷◌ ((==_iff x y).0 k.0) (same_text_eq a b k.1)

unfoldable pub starts_with : Text → Text → Bool
starts_with [] t = true
starts_with (x ∷ xs) [] = false
starts_with (x ∷ xs) (y ∷ ys) = x == y && starts_with xs ys

-- `find`: where a text first stands in another.
unfoldable pub find : Text → Text → Option ℕ
unfolding starts_with
find part [] = if is_empty part then some 0 else none
find part (c ∷ t) =
    let rest = find part t in
    if starts_with part (c ∷ t) then some 0 else elim rest [ none ↦ none | some i ↦ some (suc i) ]

abbrev pub is_digit : ℕ → Bool
is_digit c = leb b'0' c && leb c b'9'

-- `isspace`
abbrev pub is_space : ℕ → Bool
is_space c = c == b' ' || leb 9 c && leb c 13

unfoldable pub skip_spaces : Text → Text
skip_spaces [] = []
skip_spaces (c ∷ t) = let rest = skip_spaces t in if is_space c then rest else c ∷ t

-- The number that the leading digits spell behind `n`.
unfoldable pub number_from : ℕ → Text → ℕ
number_from n [] = n
number_from n (c ∷ t) =
    let rest = number_from (n * 10 + (c - b'0')) t in if is_digit c then rest else n

abbrev has_digit : Text → Bool
has_digit [] = false
has_digit (c ∷ t) = is_digit c

-- The optional sign, and what stands behind it.
abbrev signed_parts : Text → Bool × Text
signed_parts [] = (false, [])
signed_parts (c ∷ t) =
    if c == b'-' then (true, t) else if c == b'+' then (false, t) else (false, c ∷ t)

-- `stoi` and `stoll` for 32 and 64 bits: spaces, a sign and digits, and anything behind. `none` where
-- they throw: there is no digit, or the number is out of range. The result is the number's 64-bit
-- pattern.
unfoldable pub parse_signed : ℕ → Text → Option ℕ
unfolding skip_spaces number_from
parse_signed bits t =
    let (negative, rest) = signed_parts (skip_spaces t) in
    let n = number_from 0 rest in
    if not (has_digit rest)
    then none
    else if negative
    then if leb n (2 ^ (bits - 1)) then some ((2 ^ 64 - n) % 2 ^ 64) else none
    else if ltb n (2 ^ (bits - 1))
    then some n
    else none

-- `atoi`: 0 without digits. Out of range C leaves the result open; here it is the low 32 bits,
-- with their sign, of the number in 64 bits, or of the nearest one to it.
unfoldable pub atoi : Text → ℕ
unfolding skip_spaces number_from
atoi t =
    let (negative, rest) = signed_parts (skip_spaces t) in
    let n = min (number_from 0 rest) (if negative then 2 ^ 63 else 2 ^ 63 - 1) % 2 ^ 32 in
    let low = if negative then (2 ^ 32 - n) % 2 ^ 32 else n in
    if ltb low (2 ^ 31) then low else 2 ^ 64 - 2 ^ 32 + low

-- The last `digits` decimal digits of a number, with no leading zeros.
unfoldable pub decimal_within : ℕ → ℕ → Text
decimal_within zero n = []
decimal_within (suc digits) n =
    let front = decimal_within digits (n / 10) in
    (if n / 10 == 0 then [] else front) ++ (b'0' + n % 10) ∷ []

-- `%llu`: twenty digits are enough for 64 bits.
unfoldable pub decimal : ℕ → Text
unfolding decimal_within
decimal n = decimal_within 20 n

length-if_nil : (b : Bool) (t : Text) → length (if b then [] else t) ≤ length t
length-if_nil true t = omega arith
length-if_nil false t = omega arith

pub length-decimal_within : (digits n : ℕ) → length (decimal_within digits n) ≤ digits
unfolding decimal_within
length-decimal_within zero n = omega arith
length-decimal_within (suc digits) n =
    let front = decimal_within digits (n / 10) in
    let last : Text = (b'0' + n % 10) ∷ [] in
    omega (
      arith,
      length-append (if n / 10 == 0 then [] else front) last,
      length-if_nil (n / 10 == 0) front,
      length-decimal_within digits (n / 10),
    )
