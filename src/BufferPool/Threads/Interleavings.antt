-- ===== src/BufferPool/Threads/Interleavings.antt =====
-- What every interleaving of the threads keeps of the pool.
use aeron_archive_replay.Base.{
  ℕ, zero, suc, ◌+◌, ◌<◌, ◌≡◌, refl, sym, subst, ◌∙◌, if_holds, some, List, [], ◌∷◌, length, get_or,
  get_or-set_self, get_or-set_ne, set, replicate, ltb, ltb→lt, arith,
}
use native.Mathlib.Decide.{ℕ_discrete}
use aeron_archive_replay.BufferPool.{new, indices_from}
use aeron_archive_replay.BufferPool.Occurrences.{length-indices_from}
use aeron_archive_replay.BufferPool.Threads.{
  Thread, outside, taking, storing, Shared, System, Turn, moved, step, run, start,
}
use aeron_archive_replay.BufferPool.Threads.Counts.{
  in_hand, all_in_hand, all_in_hand-set, entry, Sound, Fits, Leaves, move-Leaves,
}

pub record Counted (size : ℕ) (s : System) : Type 0 where
  pub sound : Sound size s.shared
  pub fits : (i : ℕ) → Fits size (get_or s.threads i outside)
  pub all : s.shared.pool.free_count + length s.shared.held + all_in_hand s.threads ≡ size

pub get_or-indices_from : (i n k : ℕ) → k < n → get_or (indices_from i n) k 0 ≡ i + k
unfolding indices_from
get_or-indices_from i zero k h = absurd (omega arith)
get_or-indices_from i (suc n) zero h = omega arith
get_or-indices_from i (suc n) (suc k) h =
    get_or-indices_from (suc i) n k (omega arith) ∙ omega arith

all_in_hand-replicate : (n : ℕ) → all_in_hand (replicate n outside) ≡ 0
unfolding all_in_hand in_hand
all_in_hand-replicate zero = refl
all_in_hand-replicate (suc n) = omega (arith, all_in_hand-replicate n)

pub get_or-replicate : (n i : ℕ) → get_or (replicate n outside) i outside ≡ outside
get_or-replicate zero i = refl
get_or-replicate (suc n) zero = refl
get_or-replicate (suc n) (suc i) = get_or-replicate n i

entry-lt : {size : ℕ} (t : Thread) {k : ℕ} → Fits size t → entry t ≡ some k → k < size
unfolding entry
entry-lt (taking count) f e = ground arith
entry-lt (storing buf count) f e = ground arith
entry-lt _ f e = cc

module _ (size : ℕ) where
  pub start-Counted : (n : ℕ) → Counted size (start size n)
  unfolding start new
  start-Counted n = record {
    sound = record {
      slots = length-indices_from 0 size;
      entries_in = λ k h. omega (arith, get_or-indices_from 0 size k h);
      held_in = tt;
      no_overflow = refl;
    };
    fits = λ i. subst (Fits size) (sym (get_or-replicate n i)) tt;
    all = omega (arith, all_in_hand-replicate n);
  }

  moved-Counted :
      (s : System) (i : ℕ) (r : Thread × Shared)
      → i < length s.threads
      → Counted size s
      → Leaves size
          (s.shared.pool.free_count + length s.shared.held + in_hand (get_or s.threads i outside))
          r
      → Counted size (moved size s i r)
  unfolding moved
  moved-Counted s i r h v l = record {
    sound = l.sound;
    fits = λ j. fits_at j (ℕ_discrete i j);
    all = omega (arith, l.kept, v.all, all_in_hand-set s.threads i r.0 h);
  }
    where
      fits_at : (j : ℕ) → Dec (i ≡ j) → Fits size (get_or (set s.threads i r.0) j outside)
      fits_at j (yes e) =
          subst (λ j. Fits size (get_or (set s.threads i r.0) j outside)) e
            (subst (Fits size) (sym (get_or-set_self s.threads i r.0 outside h)) l.fits)
      fits_at j (no ne) =
          subst (Fits size) (sym (get_or-set_ne s.threads i j r.0 outside ne)) (v.fits j)

  pub step-Counted : (s : System) (t : Turn) → Counted size s → Counted size (step size s t)
  unfolding step in_hand
  step-Counted s t v =
      if_holds (ltb t.thread (length s.threads)) (Counted size)
        (λ e.
          let h = ltb→lt t.thread (length s.threads) e in
          moved-Counted s t.thread _ h v (
            move-Leaves size t.call t.spurious (get_or s.threads t.thread outside) s.shared v.sound
              (v.fits t.thread)
              (omega (arith, v.all, all_in_hand-set s.threads t.thread outside h))))
        (λ e. v)

  run-Counted : (turns : List Turn) (s : System) → Counted size s → Counted size (run size s turns)
  unfolding run
  run-Counted [] s v = v
  run-Counted (t ∷ turns) s v = run-Counted turns _ (step-Counted s t v)

  -- From a new pool, whatever the order of the accesses of any number of threads that deallocate
  -- only what they hold: the buffers that are free, held or in the hands of a call are together as
  -- many as the pool has, `deallocate` never reports an overflow of the free list, and no access
  -- of the free list is out of its bounds.
  pub interleaved_conserves :
      (n : ℕ) (turns : List Turn)
      → let s = run size (start size n) turns in
        (s.shared.pool.free_count + length s.shared.held + all_in_hand s.threads ≡ size)
        × (s.shared.overflows ≡ 0)
        × ((i k : ℕ) → entry (get_or s.threads i outside) ≡ some k → k < size)
  interleaved_conserves n turns =
      let v = run-Counted turns _ (start-Counted n) in
      (v.all, v.sound.no_overflow, λ i k. entry-lt (get_or _ i outside) (v.fits i))
