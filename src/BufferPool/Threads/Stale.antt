-- ===== src/BufferPool/Threads/Stale.antt =====
-- An `allocate` between the exchange of a `deallocate` and its store to the free list.
use aeron_archive_replay.Base.{
  ℕ, suc, ◌-◌, ◌<◌, ◌≤◌, ◌≡◌, ◌≢◌, refl, sym, ap, subst, ◌∙◌, false, some, List, [], ◌∷◌, ◌++◌, map,
  get_or, lt→ltb, ◌==◌, ==_iff, arith,
}
use aeron_archive_replay.BufferPool.{new, allocate, is_valid_buffer, indices_from}
use aeron_archive_replay.BufferPool.Threads.{
  Thread, outside, storing, Call, rest, allocating, deallocating, Shared, System, without,
  without_later, at, begin_deallocate, begin, move, Turn, moved, step, run, start,
}
use aeron_archive_replay.BufferPool.Threads.Interleavings.{get_or-indices_from}
use aeron_archive_replay.BufferPool.Threads.Alone.{
  turn_of, whole, push, complete, alone_completes, play, run-play,
}

-- The first thread allocates twice and hands the buffer `b`, the first of the two, to the second
-- thread, which deallocates it; a third allocation runs between its exchange and its store.
abbrev pub overlap : ℕ → List Turn
overlap b =
    whole 0 allocating
    ++ whole 0 allocating
    ++ map (turn_of 1) (deallocating (some b) ∷ rest ∷ rest ∷ rest ∷ [])
    ++ whole 0 allocating
    ++ map (turn_of 1) (rest ∷ rest ∷ [])

-- The shared memory as far as the race depends on it.
record Looks (size count : ℕ) (held : List ℕ) (s : Shared) : Type 0 where
  pub list : s.pool.free_list ≡ indices_from 0 size
  pub counted : s.pool.free_count ≡ count
  pub holds : s.held ≡ held

module _ (size : ℕ) where
  run-append :
      (xs ys : List Turn) (s : System) {t u : System}
      → run size s xs ≡ t
      → run size t ys ≡ u
      → run size s (xs ++ ys) ≡ u
  unfolding run
  run-append [] ys s e k = ap (λ m. run size m ys) e ∙ k
  run-append (x ∷ xs) ys s e k = run-append xs ys (step size s x) e k

  allocating-Looks :
      (count : ℕ) (held : List ℕ) (s : Shared)
      → count < size
      → Looks size (suc count) held s
      → Looks size count (count ∷ held) (complete size allocating s)
  unfolding complete allocate push
  allocating-Looks count held s h v =
      rw nonempty (record {
        list = v.list;
        counted = omega (arith, v.counted);
        holds = λ i. top i ∷ v.holds i;
      })
    where
      nonempty : (s.pool.free_count == 0) ≡ false
      nonempty = ap (λ n. n == 0) v.counted ∙ ground arith

      top : get_or s.pool.free_list (s.pool.free_count - 1) 0 ≡ count
      top =
          ap (λ l. get_or l (s.pool.free_count - 1) 0) v.list
          ∙ get_or-indices_from 0 size (s.pool.free_count - 1) (omega (arith, v.counted))
          ∙ omega (arith, v.counted)

  giving-Looks :
      (b count : ℕ) (held left : List ℕ) (s : Shared)
      → b < size
      → count < size
      → without b held ≡ some left
      → Looks size count held s
      → let r = play size (deallocating (some b) ∷ rest ∷ rest ∷ rest ∷ []) (outside, s) in
        (r.0 ≡ storing b count) × Looks size (suc count) left r.1
  unfolding play move begin begin_deallocate at is_valid_buffer
  giving-Looks b count held left s h k e v =
      rw
        (
          found,
          lt→ltb b size h,
          lt→ltb s.pool.free_count size (omega (arith, v.counted)),
          (==_iff s.pool.free_count s.pool.free_count).1 refl,
        )
        (
          ap (storing b) v.counted,
          record { list = v.list; counted = omega (arith, v.counted); holds = refl },
        )
    where
      found : without b s.held ≡ some left
      found = ap (without b) v.holds ∙ e

  -- The buffer `b` is the first of the two that are held.
  without_second : (b c : ℕ) → c ≢ b → without b (c ∷ b ∷ []) ≡ some (c ∷ [])
  unfolding without without_later
  without_second b c ne = rw (other, (==_iff b b).1 refl) refl
    where
      other : (c == b) ≡ false
      other = ground arith

  two : Thread → Shared → System
  two x s = record { shared = s; threads = outside ∷ x ∷ [] }

  allocating_alone :
      (x : Thread) (s : Shared)
      → run size (two x s) (whole 0 allocating) ≡ two x (complete size allocating s)
  unfolding two
  allocating_alone x s = alone_completes size allocating (two x s) 0 (omega arith) refl

  second_plays :
      (cs : List Call) (x : Thread) (s : Shared)
      → run size (two x s) (map (turn_of 1) cs)
        ≡ two (play size cs (x, s)).0 (play size cs (x, s)).1
  unfolding two moved
  second_plays cs x s = run-play size cs (two x s) 1 (omega arith)

  storing_ends :
      (b count : ℕ) (s : Shared)
      → let r = play size (rest ∷ rest ∷ []) (storing b count, s) in
        (r.0 ≡ outside) × (r.1.held ≡ s.held)
  unfolding play move
  storing_ends b count s = (refl, refl)

  starting-Looks : 0 < size → Looks size (suc (size - 1)) [] (start size 2).shared
  unfolding start new
  starting-Looks h = record { list = refl; counted = omega arith; holds = refl }

  -- In a new pool of two buffers or more, an allocation may run between the exchange of a
  -- deallocation on another thread and its store to the free list; after that, when all calls are
  -- over, one buffer is held twice.
  pub overlap_shares :
      2 ≤ size
      → let s = run size (start size 2) (overlap (size - 1)) in
        (s.shared.held ≡ (size - 2) ∷ (size - 2) ∷ []) × (s.threads ≡ outside ∷ outside ∷ [])
  unfolding start two
  overlap_shares h =
      let s0 = (start size 2).shared in
      let s1 = complete size allocating s0 in
      let s2 = complete size allocating s1 in
      let r = play size (deallocating (some (size - 1)) ∷ rest ∷ rest ∷ rest ∷ []) (outside, s2) in
      let s4 = complete size allocating r.1 in
      let last = play size (rest ∷ rest ∷ []) (r.0, s4) in
      let ran : run size (start size 2) (overlap (size - 1)) ≡ two last.0 last.1 =
        run-append _ _ (two outside s0) (allocating_alone outside s0) (
          run-append _ _ (two outside s1) (allocating_alone outside s1) (
            run-append _ _ (two outside s2)
              (second_plays (deallocating (some (size - 1)) ∷ rest ∷ rest ∷ rest ∷ []) outside s2)
              (run-append _ _ (two r.0 r.1) (allocating_alone r.0 r.1)
                (second_plays (rest ∷ rest ∷ []) r.0 s4)))) in
      let v1 = allocating-Looks (size - 1) [] s0 (omega arith) (starting-Looks (omega arith)) in
      let v2 =
        allocating-Looks (size - 2) ((size - 1) ∷ []) s1 (omega arith)
          (record { list = v1.list; counted = v1.counted ∙ omega arith; holds = v1.holds }) in
      let v3 =
        giving-Looks (size - 1) (size - 2) ((size - 2) ∷ (size - 1) ∷ []) ((size - 2) ∷ []) s2
          (omega arith) (omega arith) (without_second (size - 1) (size - 2) (omega arith)) v2 in
      let v4 = allocating-Looks (size - 2) ((size - 2) ∷ []) r.1 (omega arith) v3.1 in
      let over : (last.0 ≡ outside) × (last.1.held ≡ s4.held) =
        subst
          (λ x.
            let l = play size (rest ∷ rest ∷ []) (x, s4) in (l.0 ≡ outside) × (l.1.held ≡ s4.held))
          (sym v3.0) (storing_ends (size - 1) (size - 2) s4) in
      (
        ap (λ m. m.shared.held) ran ∙ over.1 ∙ v4.holds,
        ap (λ m. m.threads) ran ∙ ap (λ x. outside ∷ x ∷ []) over.0,
      )
