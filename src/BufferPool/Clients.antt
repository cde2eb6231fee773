-- ===== src/BufferPool/Clients.antt =====
-- The pool between its clients.
use aeron_archive_replay.Base.{ℕ, ◌≡◌, inl, inr, none, some, List, [], ◌∷◌, ◌++◌, subst}
use aeron_archive_replay.BufferPool.{BufferPool, new, allocate, deallocate}
use aeron_archive_replay.BufferPool.Ownership.{Owns, new-Owns, allocate-Owns, deallocate-Owns}

module _ (size : ℕ) where
  -- What clients do to a pool that return only what they hold, and what they hold then.
  pub data Reachable : BufferPool → List ℕ → Type 0 where
    started : Reachable (new size) []
    refused :
        {p : BufferPool} {held : List ℕ}
        → Reachable p held
        → (allocate p).1 ≡ none
        → Reachable (allocate p).0 held
    given :
        {p : BufferPool} {held : List ℕ} {i : ℕ}
        → Reachable p held
        → (allocate p).1 ≡ some i
        → Reachable (allocate p).0 (i ∷ held)
    returned :
        {p : BufferPool} (xs ys : List ℕ) (i : ℕ)
        → Reachable p (xs ++ i ∷ ys)
        → Reachable (deallocate size p (some i)) (xs ++ ys)

  -- After any calls of a new pool, one at a time and none overlapping another, by clients that
  -- return only what they hold, each buffer is free once and not held, or held once and not free,
  -- and nothing else is free or held.
  pub Reachable-Owns : {p : BufferPool} {held : List ℕ} → Reachable p held → Owns size p held
  Reachable-Owns started = new-Owns size
  Reachable-Owns (refused r e) = elim (allocate-Owns size (Reachable-Owns r)) [
    | inl k ↦ k.2
    | inr k ↦ cc
  ]
  Reachable-Owns (given {p} {held} {i} r e) = elim (allocate-Owns size (Reachable-Owns r)) [
    | inl k ↦ cc
    | inr k ↦ let same : k.0 ≡ i = cc in subst (λ j. Owns size (allocate p).0 (j ∷ held)) same k.4
  ]
  Reachable-Owns (returned xs ys i r) = deallocate-Owns size xs ys i (Reachable-Owns r)
