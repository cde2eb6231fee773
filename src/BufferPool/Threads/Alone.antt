-- ===== src/BufferPool/Threads/Alone.antt =====
-- A call that meets no other thread, step by step, and the same call of the model without threads.
use aeron_archive_replay.Base.{
  ℕ, zero, suc, ◌+◌, ◌-◌, ◌<◌, ◌≡◌, refl, sym, ap, ◌∙◌, inl, inr, Bool-cases, true, false, not,
  ◌&&◌, Option, none, some, List, [], ◌∷◌, map, length, length-set, get_or, get_or-set_self, set,
  ltb, lt→ltb, ◌==◌, ==_iff, if◌then◌else◌, add64, arith,
}
use aeron_archive_replay.MessageBuffer.{blank, reset}
use aeron_archive_replay.MessageQueue.{Pointer}
use aeron_archive_replay.BufferPool.{buffer_at, allocate, deallocate, is_valid_buffer}
use aeron_archive_replay.BufferPool.Threads.{
  Thread, outside, Call, rest, allocating, deallocating, Shared, System, without, at,
  begin_deallocate, begin, move, Turn, moved, step, run,
}

module _ {ℓ} {A : Type ℓ} where
  set-set : (xs : List A) (i : ℕ) (v w : A) → set (set xs i v) i w ≡ set xs i w
  set-set [] i v w = refl
  set-set (x ∷ xs) zero v w = refl
  set-set (x ∷ xs) (suc i) v w = ap (◌∷◌ x) (set-set xs i v w)

  set-get_or : (xs : List A) (i : ℕ) (d : A) → set xs i (get_or xs i d) ≡ xs
  set-get_or [] i d = refl
  set-get_or (x ∷ xs) zero d = refl
  set-get_or (x ∷ xs) (suc i) d = ap (◌∷◌ x) (set-get_or xs i d)

  -- Two writes to one place, the second of what is read there after the first.
  set-twice :
      (xs : List A) (i : ℕ) (d : A) (f g : A → A)
      → let ys = set xs i (f (get_or xs i d)) in
        set ys i (g (get_or ys i d)) ≡ set xs i (g (f (get_or xs i d)))
  set-twice [] i d f g = refl
  set-twice (x ∷ xs) zero d f g = refl
  set-twice (x ∷ xs) (suc i) d f g = ap (◌∷◌ x) (set-twice xs i d f g)

abbrev pub turn_of : ℕ → Call → Turn
turn_of t c = record { thread = t; call = c; spurious = false }

-- Turns of one thread only: it begins a call and goes on until the call is over.
abbrev pub whole : ℕ → Call → List Turn
whole t c = turn_of t c ∷ map (turn_of t) (rest ∷ rest ∷ rest ∷ rest ∷ rest ∷ [])

unfoldable pub push : Pointer → List ℕ → List ℕ
push none xs = xs
push (some i) xs = i ∷ xs

module _ (size : ℕ) where
  -- Steps of one thread on the shared memory.
  unfoldable pub play : List Call → Thread × Shared → Thread × Shared
  play [] r = r
  play (c ∷ cs) r = play cs (move size c false r.0 r.1)

  pub run-play :
      (cs : List Call) (s : System) (t : ℕ)
      → t < length s.threads
      → run size s (map (turn_of t) cs)
        ≡ moved size s t (play cs (get_or s.threads t outside, s.shared))
  unfolding run step moved play
  run-play [] s t h =
      λ i. record { shared = s.shared; threads = sym (set-get_or s.threads t outside) i }
  run-play (c ∷ cs) s t h =
      let r = move size c false (get_or s.threads t outside) s.shared in
      let at_t : get_or (set s.threads t r.0) t outside ≡ r.0 =
        get_or-set_self s.threads t r.0 outside h in
      let stepped : step size s (turn_of t c) ≡ moved size s t r = rw (lt→ltb t _ h) refl in
      ap (λ m. run size m (map (turn_of t) cs)) stepped
      ∙ run-play cs (moved size s t r) t (omega (arith, length-set s.threads t r.0))
      ∙ ap (λ x. moved size (moved size s t r) t (play cs (x, r.1))) at_t
      ∙ (λ i. record { shared = (play cs r).1; threads = set-set s.threads t r.0 (play cs r).0 i })

  unfoldable pub returned : ℕ → Option (List ℕ) → Shared → Shared
  returned i none s = s
  returned i (some left) s = record {
    pool = deallocate size s.pool (some i);
    held = left;
    overflows =
        if ltb i size && not (ltb s.pool.free_count size) then s.overflows + 1 else s.overflows;
  }

  -- A whole call at once.
  unfoldable pub complete : Call → Shared → Shared
  unfolding returned
  complete rest s = s
  complete allocating s = let r = allocate s.pool in record s { pool = r.0; held = push r.1 s.held }
  complete (deallocating none) s = record s { pool = deallocate size s.pool none }
  complete (deallocating (some i)) s = returned i (without i s.held) s

  allocate-play :
      (s : Shared)
      → play (allocating ∷ rest ∷ rest ∷ rest ∷ rest ∷ rest ∷ []) (outside, s)
        ≡ (outside, complete allocating s)
  unfolding play move begin complete allocate push buffer_at at
  allocate-play s = elim (Bool-cases (s.pool.free_count == 0)) [
    | inl e ↦ rw e refl
    | inr ne ↦
        let n = s.pool.free_count in
        let i = get_or s.pool.free_list (n - 1) 0 in
        rw (ne, (==_iff n n).1 refl)
          (λ j. (
            outside,
            record {
              pool = record s.pool {
                buffers =
                    set-twice s.pool.buffers i blank (λ m. record m { in_use = true }) reset j;
                free_count = n - 1;
                total_allocations = add64 s.pool.total_allocations 1;
              };
              held = i ∷ s.held;
              overflows = s.overflows;
            },
          ))
  ]

  deallocate-play :
      (i : ℕ) (o : Option (List ℕ)) (s : Shared)
      → play (rest ∷ rest ∷ rest ∷ rest ∷ rest ∷ []) (begin_deallocate size i o s)
        ≡ (outside, returned i o s)
  unfolding play move begin begin_deallocate returned deallocate buffer_at at is_valid_buffer
  deallocate-play i none s = refl
  deallocate-play i (some left) s = elim (Bool-cases (ltb i size)) [
    | inr bad ↦ rw bad refl
    | inl ok ↦ elim (Bool-cases (ltb s.pool.free_count size)) [
      | inl room ↦ rw (ok, room, (==_iff s.pool.free_count s.pool.free_count).1 refl) refl
      | inr full ↦ rw (ok, full) refl
    ]
  ]

  call-play :
      (c : Call) (s : Shared)
      → play (c ∷ rest ∷ rest ∷ rest ∷ rest ∷ rest ∷ []) (outside, s) ≡ (outside, complete c s)
  unfolding play move begin complete deallocate
  call-play rest s = refl
  call-play allocating s = allocate-play s
  call-play (deallocating none) s = refl
  call-play (deallocating (some i)) s = deallocate-play i (without i s.held) s

  -- A call of a thread that is outside of every other, that no other thread interrupts, and whose
  -- exchange does not fail spuriously, is over after at most six accesses, and leaves the pool as
  -- the call of the model without threads does.
  pub alone_completes :
      (c : Call) (s : System) (t : ℕ)
      → t < length s.threads
      → get_or s.threads t outside ≡ outside
      → run size s (whole t c) ≡ record s { shared = complete c s.shared }
  unfolding moved
  alone_completes c s t h e =
      run-play (c ∷ rest ∷ rest ∷ rest ∷ rest ∷ rest ∷ []) s t h
      ∙ ap (λ x. moved size s t (play (c ∷ rest ∷ rest ∷ rest ∷ rest ∷ rest ∷ []) (x, s.shared))) e
      ∙ ap (moved size s t) (call-play c s.shared)
      ∙ (λ i. record {
        shared = complete c s.shared;
        threads = (ap (set s.threads t) (sym e) ∙ set-get_or s.threads t outside) i;
      })
