-- ===== src/SpscQueue/Refine.antt =====
-- The statistics queue implements the bounded FIFO of capacity `size - 1`.
use aeron_archive_replay.Fifo
use aeron_archive_replay.Fifo.{Call, put, get, Reply, stored, taken}
use aeron_archive_replay.Ring.Size.{IsSize, mask_next}
use aeron_archive_replay.Ring.Index.{used_cases}
use aeron_archive_replay.Ring.Contents.{
  contents, length-contents, contents_empty, contents-set_tail, contents_cons, length-contents_full,
  length-contents_room, length-contents_pos,
}
use aeron_archive_replay.Base.{
  ℕ, ◌+◌, ◌-◌, ◌%◌, ◌<◌, ◌≡◌, refl, ap, ◌↔◌, true, List, [], ◌∷◌, length, get_or_default,
  length-set, length-replicate, arith, ℕ_discrete,
}
use aeron_archive_replay.SpscQueue.{SpscQueue, increment, new, enqueue, dequeue, count, empty}

module _ {T : Type 0} (size : ℕ) where
  pub record IsValid (q : SpscQueue T) : Type 0 where
    pub slots : length q.buffer ≡ size
    pub head_in : q.head < size
    pub tail_in : q.tail < size

  -- The items in the queue, oldest first; `blank` is never among them.
  abbrev pub items : T → SpscQueue T → List T
  items blank q = contents size blank q.buffer q.head q.tail

  -- A history of calls on the real queue.
  unfoldable pub run : SpscQueue T → T → List (Call T) → List (Reply T)
  run q item [] = []
  run q item (put x ∷ calls) = let (done, q') = enqueue size q x in stored done ∷ run q' item calls
  run q item (get ∷ calls) =
      let (done, item', q') = dequeue size q item in taken done item' ∷ run q' item' calls

increment_lem :
    {size : ℕ} → IsSize size → (idx : ℕ) → idx < size → increment size idx ≡ (idx + 1) % size
unfolding increment
increment_lem s idx h = mask_next s idx h

module _ {T : Type 0} {size : ℕ} (s : IsSize size) where
  pub new-IsValid : (blank : T) → IsValid size (new size blank)
  unfolding new
  new-IsValid blank = record {
    slots = length-replicate size blank;
    head_in = s.is_positive;
    tail_in = s.is_positive;
  }

  pub enqueue-IsValid :
      {q : SpscQueue T} (x : T) → IsValid size q → IsValid size (enqueue size q x).1
  unfolding enqueue
  enqueue-IsValid {q} x v =
      ground (arith, length-set q.buffer q.tail x, increment_lem s q.tail v.tail_in)

  pub dequeue-IsValid :
      {q : SpscQueue T} (x : T) → IsValid size q → IsValid size (dequeue size q x).2
  unfolding dequeue
  dequeue-IsValid {q} x v = ground (arith, increment_lem s q.head v.head_in)

  module _ (blank : T) {q : SpscQueue T} (v : IsValid size q) where
    pub enqueue_refines :
        (x : T)
        → let (done, q') = enqueue size q x in
          (done, items size blank q') ≡ Fifo.push (size - 1) (items size blank q) x
    unfolding enqueue Fifo.push
    enqueue_refines x = ground (
      arith,
      increment_lem s q.tail v.tail_in,
      length-contents_full size blank q.buffer q.head q.tail v.slots v.head_in v.tail_in,
      length-contents_room size blank q.buffer q.head q.tail v.slots v.head_in v.tail_in,
      contents-set_tail size blank q.buffer q.head q.tail v.slots v.head_in v.tail_in x,
    )

    pub dequeue_refines :
        (x : T)
        → let (done, x', q') = dequeue size q x in
          (done, x', items size blank q') ≡ Fifo.pop (items size blank q) x
    unfolding dequeue Fifo.pop
    dequeue_refines x = elim (ℕ_discrete q.head q.tail) [
      | yes e ↦ ground (arith, contents_empty size blank q.buffer q.head v.head_in)
      | no ne ↦ ground (
        arith,
        increment_lem s q.head v.head_in,
        contents_cons size blank q.buffer q.head q.tail v.slots v.head_in v.tail_in ne,
        get_or_default q.buffer q.head x blank,
      )
    ]

    -- On a valid queue `size()` is the number of items, and `empty()` holds exactly where there
    -- are none.
    pub count_empty_lem :
        (count size q ≡ length (items size blank q))
        × ((empty q ≡ true) ↔ (items size blank q ≡ []))
    unfolding count empty
    count_empty_lem = (
      ground (
        arith,
        s.fits,
        length-contents size blank q.buffer q.head q.tail,
        used_cases size q.head q.tail v.head_in v.tail_in,
      ),
      (
        λ e. ground (arith, contents_empty size blank q.buffer q.head v.head_in),
        λ e. ground (
          arith,
          ap length e,
          length-contents_pos size blank q.buffer q.head q.tail v.slots v.head_in v.tail_in,
        ),
      ),
    )

  -- A valid queue answers every sequence of calls as the bounded FIFO of capacity `size - 1` that
  -- begins with its items.
  pub run_refines :
      (blank : T) (calls : List (Call T)) {q : SpscQueue T} (x : T)
      → IsValid size q
      → run size q x calls ≡ Fifo.run (size - 1) (items size blank q) x calls
  unfolding run Fifo.run
  run_refines blank [] x v = refl
  run_refines blank (put y ∷ calls) {q} x v =
      rw (run_refines blank calls x (enqueue-IsValid y v), ← enqueue_refines blank v y)
  run_refines blank (get ∷ calls) {q} x v = rw (
    run_refines blank calls (dequeue size q x).1 (dequeue-IsValid x v),
    ← dequeue_refines blank v x,
  )
