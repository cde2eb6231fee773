-- ===== src/BufferPool/Threads/Exclusive.antt =====
-- Allocations alone, on any number of threads.
use aeron_archive_replay.Base.{
  ℕ, ◌+◌, ◌<◌, ◌≤◌, ◌≡◌, refl, sym, subst, if_true, if_false, Bool-cases, inl, inr, true, and_both,
  List, [], ◌∷◌, length, get_or, get_or-set_self, get_or-set_ne, set, take, ltb, ltb→lt, arith,
}
use native.Mathlib.Decide.{ℕ_discrete}
use aeron_archive_replay.BufferPool.{new, indices_from}
use aeron_archive_replay.BufferPool.Occurrences.{occurrences, occurrences-indices_from}
use aeron_archive_replay.BufferPool.Threads.{
  Thread, outside, Shared, System, move, Turn, moved, step, run, start,
}
use aeron_archive_replay.BufferPool.Threads.Interleavings.{
  get_or-replicate, Counted, start-Counted, step-Counted,
}
use aeron_archive_replay.BufferPool.Threads.Owners.{
  in_hand_of, total, total-set, total-replicate, allocates, returns_none, never_returns, Keeps,
  move-Keeps,
}

-- What holds while nobody deallocates.
record Exclusive (size : ℕ) (s : System) : Type 0 where
  pub counted : Counted size s
  pub kinds : (j : ℕ) → allocates (get_or s.threads j outside) ≡ true
  pub one_owner :
      (i : ℕ)
      → i < size
      → occurrences i (take s.shared.pool.free_count s.shared.pool.free_list)
          + occurrences i s.shared.held
          + total (in_hand_of i s.shared.pool.free_list) s.threads
        ≡ 1

module _ (size : ℕ) where
  start-Exclusive : (n : ℕ) → Exclusive size (start size n)
  unfolding start new occurrences
  start-Exclusive n = record {
    counted = start-Counted size n;
    kinds = λ j. subst (λ t. allocates t ≡ true) (sym (get_or-replicate n j)) refl;
    one_owner = λ i h. omega (
      arith,
      (occurrences-indices_from 0 i size).2 (omega arith) (omega arith),
      total-replicate (in_hand_of i (indices_from 0 size)) n refl,
    );
  }

  moved-Exclusive :
      (s : System) (j : ℕ) (r : Thread × Shared)
      → j < length s.threads
      → Counted size (moved size s j r)
      → Exclusive size s
      → Keeps (get_or s.threads j outside) s.shared r
      → Exclusive size (moved size s j r)
  unfolding moved
  moved-Exclusive s j r h c v k = record {
    counted = c;
    kinds = λ i. kind_at i (ℕ_discrete j i);
    one_owner = λ i lt. omega (arith, v.one_owner i lt, k.owned i, handed i);
  }
    where
      kind_at : (i : ℕ) → Dec (j ≡ i) → allocates (get_or (set s.threads j r.0) i outside) ≡ true
      kind_at i (yes e) =
          subst (λ i. allocates (get_or (set s.threads j r.0) i outside) ≡ true) e
            (subst (λ t. allocates t ≡ true) (sym (get_or-set_self s.threads j r.0 outside h))
              k.kind)
      kind_at i (no ne) =
          subst (λ t. allocates t ≡ true) (sym (get_or-set_ne s.threads j i r.0 outside ne))
            (v.kinds i)

      handed :
          (i : ℕ)
          → total (in_hand_of i r.1.pool.free_list) (set s.threads j r.0)
              + in_hand_of i s.shared.pool.free_list (get_or s.threads j outside)
            ≡ total (in_hand_of i s.shared.pool.free_list) s.threads
              + in_hand_of i r.1.pool.free_list r.0
      handed i =
          subst
            (λ l.
              total (in_hand_of i l) (set s.threads j r.0)
                + in_hand_of i s.shared.pool.free_list (get_or s.threads j outside)
              ≡ total (in_hand_of i s.shared.pool.free_list) s.threads + in_hand_of i l r.0)
            (sym k.list) (total-set (in_hand_of i s.shared.pool.free_list) s.threads j r.0 h)

  step-Exclusive :
      (s : System) (t : Turn)
      → returns_none t.call ≡ true
      → Exclusive size s
      → Exclusive size (step size s t)
  unfolding step
  step-Exclusive s t h v = elim (Bool-cases (ltb t.thread (length s.threads))) [
    | inl e ↦
        let lt = ltb→lt t.thread (length s.threads) e in
        let r = move size t.call t.spurious (get_or s.threads t.thread outside) s.shared in
        let c : Counted size (moved size s t.thread r) =
          subst (Counted size) (if_true s e) (step-Counted size s t v.counted) in
        subst (Exclusive size) (sym (if_true s e)) (
          moved-Exclusive s t.thread r lt c v (
            move-Keeps size t.call t.spurious (get_or s.threads t.thread outside) s.shared
              (v.kinds t.thread) h (v.counted.fits t.thread) v.counted.sound.slots))
    | inr e ↦ subst (Exclusive size) (sym (if_false (moved size s t.thread _) e)) v
  ]

  run-Exclusive :
      (turns : List Turn) (s : System)
      → never_returns turns ≡ true
      → Exclusive size s
      → Exclusive size (run size s turns)
  unfolding run never_returns
  run-Exclusive [] s h v = v
  run-Exclusive (t ∷ turns) s h v =
      let both = and_both (returns_none t.call) (never_returns turns) h in
      run-Exclusive turns (step size s t) both.1 (step-Exclusive s t both.0 v)

  -- From a new pool, whatever the order of the accesses of any number of threads that only
  -- allocate: no buffer is held twice.
  pub allocations_share_none :
      (n : ℕ) (turns : List Turn)
      → never_returns turns ≡ true
      → let s = run size (start size n) turns in
        (i : ℕ) → i < size → occurrences i s.shared.held ≤ 1
  allocations_share_none n turns h i lt =
      omega (arith, (run-Exclusive turns (start size n) h (start-Exclusive n)).one_owner i lt)
