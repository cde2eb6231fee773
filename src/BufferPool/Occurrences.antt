-- ===== src/BufferPool/Occurrences.antt =====
-- How often a buffer stands in the free list of the pool.
use aeron_archive_replay.Base.{
  ℕ, zero, suc, ◌+◌, ◌<◌, ◌≤◌, ◌≡◌, refl, ap, List, [], ◌∷◌, ◌++◌, length, get_or, set, take, ◌==◌,
  if◌then◌else◌, arith,
}
use aeron_archive_replay.BufferPool.{indices_from}

-- How often `i` stands in a list.
unfoldable pub occurrences : ℕ → List ℕ → ℕ
occurrences i [] = 0
occurrences i (x ∷ xs) = (if x == i then 1 else 0) + occurrences i xs

pub occurrences_self : (i : ℕ) (xs : List ℕ) → occurrences i (i ∷ xs) ≡ suc (occurrences i xs)
unfolding occurrences
occurrences_self i xs = ground arith

pub occurrences-append :
    (i : ℕ) (xs ys : List ℕ) → occurrences i (xs ++ ys) ≡ occurrences i xs + occurrences i ys
unfolding occurrences
occurrences-append i [] ys = omega arith
occurrences-append i (x ∷ xs) ys = omega (arith, occurrences-append i xs ys)

pub occurrences-take-suc :
    (i n : ℕ) (xs : List ℕ)
    → n < length xs
    → occurrences i (take (suc n) xs) ≡ occurrences i (get_or xs n 0 ∷ take n xs)
unfolding occurrences
occurrences-take-suc i n [] h = absurd (omega arith)
occurrences-take-suc i zero (x ∷ xs) h = refl
occurrences-take-suc i (suc n) (x ∷ xs) h = omega (arith, occurrences-take-suc i n xs (omega arith))

take-set : (n : ℕ) (xs : List ℕ) (v : ℕ) → take n (set xs n v) ≡ take n xs
take-set n [] v = refl
take-set zero (x ∷ xs) v = refl
take-set (suc n) (x ∷ xs) v = ap (◌∷◌ x) (take-set n xs v)

pub occurrences-take-set :
    (i n : ℕ) (xs : List ℕ) (v : ℕ)
    → n < length xs
    → occurrences i (take (suc n) (set xs n v)) ≡ occurrences i (v ∷ take n xs)
unfolding occurrences
occurrences-take-set i n [] v h = absurd (omega arith)
occurrences-take-set i zero (x ∷ xs) v h = refl
occurrences-take-set i (suc n) (x ∷ xs) v h =
    omega (arith, occurrences-take-set i n xs v (omega arith))

pub length-indices_from : (i n : ℕ) → length (indices_from i n) ≡ n
unfolding indices_from
length-indices_from i zero = refl
length-indices_from i (suc n) = ap suc (length-indices_from (suc i) n)

pub occurrences-indices_from :
    (i j n : ℕ)
    → ((j < i → occurrences j (take n (indices_from i n)) ≡ 0)
        × (i + n ≤ j → occurrences j (take n (indices_from i n)) ≡ 0)
        × (i ≤ j → j < i + n → occurrences j (take n (indices_from i n)) ≡ 1))
unfolding indices_from occurrences
occurrences-indices_from i j zero = (λ h. refl, λ h. refl, λ h k. absurd (omega arith))
occurrences-indices_from i j (suc n) =
    let rest = occurrences-indices_from (suc i) j n in
    (λ h. ground arith, λ h. ground arith, λ h k. ground arith)
