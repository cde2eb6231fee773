-- ===== src/BufferPool/Threads/Counts.antt =====
-- How many buffers are free, held, and on their way between the two, whatever the order of the
-- accesses.
use aeron_archive_replay.Base.{
  ℕ, zero, suc, ◌+◌, ◌-◌, ◌<◌, ◌≤◌, ◌≡◌, refl, sym, subst, ap, if_true, if_false, ==_iff,
  get_or-set_self, get_or-set_ne, lt→ltb, and_both, ◌∙◌, inl, inr, Bool-cases, if_holds, Bool, not,
  ◌&&◌, Option, none, some, List, [], ◌∷◌, length, length-set, get_or, set, ◌==◌, arith,
}
use native.Mathlib.Decide.{ℕ_discrete}
use aeron_archive_replay.BufferPool.{is_valid_buffer}
use aeron_archive_replay.BufferPool.Threads.{
  Thread, outside, trying, taking, marking, clearing, tallying, unmarking, loading, giving, storing,
  noting, Call, rest, allocating, deallocating, Shared, without, without_later, at,
  begin_deallocate, begin, move,
}

-- The buffers in the hands of a thread: those that left the free count and are not returned yet, and
-- those that `deallocate` got and has not counted as free.
unfoldable pub in_hand : Thread → ℕ
in_hand (taking count) = 1
in_hand (marking buf) = 1
in_hand (clearing buf) = 1
in_hand (tallying buf) = 1
in_hand (unmarking buf) = 1
in_hand (loading buf) = 1
in_hand (giving buf count) = 1
in_hand _ = 0

unfoldable pub all_in_hand : List Thread → ℕ
all_in_hand [] = 0
all_in_hand (t ∷ threads) = in_hand t + all_in_hand threads

-- The entry of the free list that the next access of a thread reads or writes.
unfoldable pub entry : Thread → Option ℕ
entry (taking count) = some (count - 1)
entry (storing buf count) = some count
entry _ = none

pub all_in_hand-set :
    (threads : List Thread) (i : ℕ) (t : Thread)
    → i < length threads
    → all_in_hand (set threads i t) + in_hand (get_or threads i outside)
      ≡ all_in_hand threads + in_hand t
unfolding all_in_hand
all_in_hand-set [] i t h = absurd (omega arith)
all_in_hand-set (x ∷ threads) zero t h = omega arith
all_in_hand-set (x ∷ threads) (suc i) t h = omega (arith, all_in_hand-set threads i t (omega arith))

-- Every item is below `n`.
abbrev pub Below : ℕ → List ℕ → Type 0
Below n [] = Unit
Below n (x ∷ xs) = (x < n) × Below n xs

later-eq-some :
    (x : ℕ) (o : Option (List ℕ)) {ys : List ℕ}
    → without_later x o ≡ some ys
    → (zs : List ℕ) × (o ≡ some zs) × (ys ≡ x ∷ zs)
unfolding without_later
later-eq-some x none e = cc
later-eq-some x (some zs) e = (zs, refl, cc)

some_same : {xs ys : List ℕ} → some xs ≡ some ys → xs ≡ ys
some_same e = cc

Below-without :
    (n i : ℕ) (xs : List ℕ) {ys : List ℕ}
    → Below n xs
    → without i xs ≡ some ys
    → (i < n) × Below n ys × (length xs ≡ suc (length ys))
unfolding without
Below-without n i [] b e = cc
Below-without n i (x ∷ xs) {ys} b e = elim (Bool-cases (x == i)) [
  | inl same ↦
      let k : xs ≡ ys = some_same (sym (if_true _ same) ∙ e) in
      (omega (arith, b.0, (==_iff x i).0 same), subst (Below n) k b.1, ap (λ l. suc (length l)) k)
  | inr other ↦
      let (zs, k, l) = later-eq-some x (without i xs) (sym (if_false _ other) ∙ e) in
      let (lt, below, len) = Below-without n i xs b.1 k in
      (lt, subst (Below n) (sym l) (b.0, below), ap suc len ∙ ap (λ l. suc (length l)) (sym l))
]

-- What every access keeps of the shared memory.
pub record IsSound (size : ℕ) (free_list held : List ℕ) (overflows : ℕ) : Type 0 where
  pub slots : length free_list ≡ size
  pub entries_in : (k : ℕ) → k < size → get_or free_list k 0 < size
  pub held_in : Below size held
  pub no_overflow : overflows ≡ 0

abbrev pub Sound : ℕ → Shared → Type 0
Sound size s = IsSound size s.pool.free_list s.held s.overflows

-- The locals of a thread are in range.
abbrev pub Fits : ℕ → Thread → Type 0
Fits size outside = Unit
Fits size (trying count) = count ≤ size
Fits size (taking count) = (0 < count) × (count ≤ size)
Fits size (marking buf) = buf < size
Fits size (clearing buf) = buf < size
Fits size (tallying buf) = buf < size
Fits size (unmarking buf) = buf < size
Fits size (loading buf) = buf < size
Fits size (giving buf count) = (buf < size) × (count < size)
Fits size (storing buf count) = (buf < size) × (count < size)
Fits size noting = Unit

-- What an access of a thread leaves; `n` buffers are free, held or in the hands of the thread.
pub record Leaves (size n : ℕ) (r : Thread × Shared) : Type 0 where
  pub sound : Sound size r.1
  pub fits : Fits size r.0
  pub kept : r.1.pool.free_count + length r.1.held + in_hand r.0 ≡ n

module _ (size : ℕ) where
  begin-Leaves :
      (c : Call) (s : Shared)
      → Sound size s
      → s.pool.free_count + length s.held ≤ size
      → Leaves size (s.pool.free_count + length s.held) (begin size c s)
  unfolding begin begin_deallocate is_valid_buffer in_hand
  begin-Leaves rest s v h = record { sound = v; fits = tt; kept = omega arith }
  begin-Leaves allocating s v h = record { sound = v; fits = omega arith; kept = omega arith }
  begin-Leaves (deallocating none) s v h = record { sound = v; fits = tt; kept = omega arith }
  begin-Leaves (deallocating (some i)) s v h = found (without i s.held) refl
    where
      found :
          (o : Option (List ℕ))
          → without i s.held ≡ o
          → Leaves size (s.pool.free_count + length s.held) (begin_deallocate size i o s)
      found none e = record { sound = v; fits = tt; kept = omega arith }
      found (some left) e =
          let (lt, below, len) = Below-without size i s.held v.held_in e in
          rw (lt→ltb i size lt) (record {
            sound = record {
              slots = v.slots;
              entries_in = v.entries_in;
              held_in = below;
              no_overflow = v.no_overflow;
            };
            fits = lt;
            kept = omega (arith, len);
          })

  pub move-Leaves :
      (c : Call) (spurious : Bool) (t : Thread) (s : Shared)
      → Sound size s
      → Fits size t
      → s.pool.free_count + length s.held + in_hand t ≤ size
      → Leaves size (s.pool.free_count + length s.held + in_hand t) (move size c spurious t s)
  unfolding move at in_hand
  move-Leaves c spurious outside s v f h =
      subst (λ n. Leaves size n (begin size c s)) (omega arith) (begin-Leaves c s v (omega arith))
  move-Leaves c spurious (trying count) s v f h =
      if_holds (count == 0) (Leaves size (s.pool.free_count + length s.held + 0))
        (λ e. record { sound = v; fits = tt; kept = omega arith })
        (λ e.
          if_holds (s.pool.free_count == count && not spurious)
            (Leaves size (s.pool.free_count + length s.held + 0))
            (λ k.
              let same = (==_iff s.pool.free_count count).0 (and_both _ _ k).0 in
              record { sound = v; fits = ground arith; kept = ground arith })
            (λ k. record { sound = v; fits = omega arith; kept = omega arith }))
  move-Leaves c spurious (taking count) s v f h = record {
    sound = v;
    fits = v.entries_in (count - 1) (omega (arith, f.0, f.1));
    kept = omega arith;
  }
  move-Leaves c spurious (marking buf) s v f h = record { sound = v; fits = f; kept = omega arith }
  move-Leaves c spurious (clearing buf) s v f h = record { sound = v; fits = f; kept = omega arith }
  move-Leaves c spurious (tallying buf) s v f h = record {
    sound = record {
      slots = v.slots;
      entries_in = v.entries_in;
      held_in = (f, v.held_in);
      no_overflow = v.no_overflow;
    };
    fits = tt;
    kept = omega arith;
  }
  move-Leaves c spurious (unmarking buf) s v f h = record {
    sound = v;
    fits = f;
    kept = omega arith;
  }
  move-Leaves c spurious (loading buf) s v f h = record {
    sound = v;
    fits = (f, omega arith);
    kept = omega arith;
  }
  move-Leaves c spurious (giving buf count) s v f h = rw (lt→ltb count size f.1) (
      if_holds (s.pool.free_count == count && not spurious)
        (Leaves size (s.pool.free_count + length s.held + 1))
        (λ k.
          let same = (==_iff s.pool.free_count count).0 (and_both _ _ k).0 in
          record { sound = v; fits = f; kept = ground arith })
        (λ k. record { sound = v; fits = (f.0, omega arith); kept = omega arith }))
  move-Leaves c spurious (storing buf count) s v f h = record {
    sound = record {
      slots = length-set s.pool.free_list count buf ∙ v.slots;
      entries_in = λ k lt. entry_in k lt (ℕ_discrete count k);
      held_in = v.held_in;
      no_overflow = v.no_overflow;
    };
    fits = tt;
    kept = omega arith;
  }
    where
      entry_in :
          (k : ℕ) → k < size → Dec (count ≡ k) → get_or (set s.pool.free_list count buf) k 0 < size
      entry_in k lt (yes e) =
          subst (λ j. get_or (set s.pool.free_list count buf) j 0 < size) e
            (subst (λ x. x < size)
              (sym (get_or-set_self s.pool.free_list count buf 0 (omega (arith, f.1, v.slots))))
              f.0)
      entry_in k lt (no ne) =
          subst (λ x. x < size) (sym (get_or-set_ne s.pool.free_list count k buf 0 ne))
            (v.entries_in k lt)
  move-Leaves c spurious noting s v f h = record { sound = v; fits = tt; kept = omega arith }
