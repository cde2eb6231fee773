-- ===== src/BufferPool/Threads/Owners.antt =====
-- Who has a buffer, access by access, where nobody deallocates.
use aeron_archive_replay.Base.{
  ℕ, zero, suc, ◌+◌, ◌-◌, ◌<◌, ◌≤◌, ◌≡◌, refl, sym, subst, if_holds, Bool, true, false, not, ◌&&◌,
  and_both, List, [], ◌∷◌, length, get_or, set, take, replicate, ◌==◌, ==_iff, arith,
}
use aeron_archive_replay.BufferPool.Occurrences.{occurrences, occurrences-take-suc}
use aeron_archive_replay.BufferPool.Threads.{
  Thread, outside, trying, taking, marking, clearing, tallying, unmarking, loading, giving, storing,
  noting, Call, rest, allocating, deallocating, Shared, at, begin, move, Turn,
}
use aeron_archive_replay.BufferPool.Threads.Counts.{Fits}

-- How often the buffer `i` is in the hands of a thread.
abbrev pub in_hand_of : ℕ → List ℕ → Thread → ℕ
in_hand_of i list (taking count) = occurrences i (get_or list (count - 1) 0 ∷ [])
in_hand_of i list (marking buf) = occurrences i (buf ∷ [])
in_hand_of i list (clearing buf) = occurrences i (buf ∷ [])
in_hand_of i list (tallying buf) = occurrences i (buf ∷ [])
in_hand_of i list _ = 0

unfoldable pub total : (Thread → ℕ) → List Thread → ℕ
total w [] = 0
total w (t ∷ threads) = w t + total w threads

pub total-set :
    (w : Thread → ℕ) (threads : List Thread) (i : ℕ) (t : Thread)
    → i < length threads
    → total w (set threads i t) + w (get_or threads i outside) ≡ total w threads + w t
unfolding total
total-set w [] i t h = absurd (omega arith)
total-set w (x ∷ threads) zero t h = omega arith
total-set w (x ∷ threads) (suc i) t h = omega (arith, total-set w threads i t (omega arith))

pub total-replicate : (w : Thread → ℕ) (n : ℕ) → w outside ≡ 0 → total w (replicate n outside) ≡ 0
unfolding total
total-replicate w zero e = refl
total-replicate w (suc n) e = omega (arith, total-replicate w n e)

-- A thread that is in no `deallocate`, and a call that begins none.
abbrev pub allocates : Thread → Bool
allocates (unmarking buf) = false
allocates (loading buf) = false
allocates (giving buf count) = false
allocates (storing buf count) = false
allocates noting = false
allocates _ = true

abbrev pub returns_none : Call → Bool
returns_none (deallocating p) = false
returns_none _ = true

unfoldable pub never_returns : List Turn → Bool
never_returns [] = true
never_returns (t ∷ turns) = returns_none t.call && never_returns turns

-- How often `i` is free, held or in the hands of the thread.
abbrev pub owners : ℕ → Thread × Shared → ℕ
owners i r =
    occurrences i (take r.1.pool.free_count r.1.pool.free_list)
    + occurrences i r.1.held
    + in_hand_of i r.1.pool.free_list r.0

pub record Keeps (t : Thread) (s : Shared) (r : Thread × Shared) : Type 0 where
  pub list : r.1.pool.free_list ≡ s.pool.free_list
  pub kind : allocates r.0 ≡ true
  pub owned : (i : ℕ) → owners i r ≡ owners i (t, s)

taken :
    (i : ℕ) (list held : List ℕ) {count free : ℕ}
    → 0 < count
    → free ≡ count
    → count ≤ length list
    → occurrences i (take (count - 1) list)
        + occurrences i held
        + occurrences i (get_or list (count - 1) 0 ∷ [])
      ≡ occurrences i (take free list) + occurrences i held + 0
unfolding occurrences
taken i list held {count} {free} pos e h =
    let n = count - 1 in
    let top : free ≡ suc n = omega arith in
    subst
      (λ m.
        occurrences i (take n list) + occurrences i held + occurrences i (get_or list n 0 ∷ [])
        ≡ occurrences i (take m list) + occurrences i held + 0)
      (sym top) (omega (arith, occurrences-take-suc i n list (omega arith)))

module _ (size : ℕ) where
  pub move-Keeps :
      (c : Call) (spurious : Bool) (t : Thread) (s : Shared)
      → allocates t ≡ true
      → returns_none c ≡ true
      → Fits size t
      → length s.pool.free_list ≡ size
      → Keeps t s (move size c spurious t s)
  unfolding move begin at occurrences
  move-Keeps rest spurious outside s k h f l = record {
    list = refl;
    kind = refl;
    owned = λ i. refl;
  }
  move-Keeps allocating spurious outside s k h f l = record {
    list = refl;
    kind = refl;
    owned = λ i. refl;
  }
  move-Keeps (deallocating p) spurious outside s k h f l = cc
  move-Keeps c spurious (trying count) s k h f l =
      if_holds (count == 0) (Keeps (trying count) s)
        (λ e. record { list = refl; kind = refl; owned = λ i. refl })
        (λ e.
          if_holds (s.pool.free_count == count && not spurious) (Keeps (trying count) s)
            (λ m. record {
              list = refl;
              kind = refl;
              owned = λ i.
                  taken i s.pool.free_list s.held (ground arith)
                    ((==_iff s.pool.free_count count).0 (and_both _ _ m).0) (omega (arith, f, l));
            })
            (λ m. record { list = refl; kind = refl; owned = λ i. refl }))
  move-Keeps c spurious (taking count) s k h f l = record {
    list = refl;
    kind = refl;
    owned = λ i. refl;
  }
  move-Keeps c spurious (marking buf) s k h f l = record {
    list = refl;
    kind = refl;
    owned = λ i. refl;
  }
  move-Keeps c spurious (clearing buf) s k h f l = record {
    list = refl;
    kind = refl;
    owned = λ i. refl;
  }
  move-Keeps c spurious (tallying buf) s k h f l = record {
    list = refl;
    kind = refl;
    owned = λ i. omega arith;
  }
  move-Keeps c spurious _ s k h f l = cc
