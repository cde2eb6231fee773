-- ===== src/Pipeline.antt =====
-- The pool and the queue between the subscriber's thread and the worker's: every buffer is free, or it
-- waits in the queue, or it is held by the thread that works on it.
pub mod Receiving
pub mod Checkpointed
pub mod Refused
pub mod Dropped
pub mod Working
pub mod Draining
pub mod Finished
pub mod Interleaving
pub mod Accounts
use aeron_archive_replay.Ring.Size.{IsSize}
use aeron_archive_replay.Fifo
use aeron_archive_replay.Base.{
  ℕ, suc, if_true, if_false, ◌+◌, ◌-◌, ◌<◌, ◌≤◌, ◌≡◌, refl, sym, ap, ap₂, ◌∙◌, ◌⊎◌, inl, inr,
  Bool-cases, Bool, true, false, Option, none, some, List, [], ◌∷◌, ◌++◌, map, length,
  length-append, ltb, ltb→lt, ltb→ge, subst, arith,
}
use aeron_archive_replay.MessageQueue.{Pointer, MessageQueue, enqueue, enqueue_buffer, dequeue}
use aeron_archive_replay.MessageQueue.Refine.{
  IsValid, items, enqueue_buffer-IsValid, dequeue-IsValid, enqueue_buffer_refines, dequeue_refines,
  length-items,
}
use aeron_archive_replay.BufferPool.{BufferPool}
use aeron_archive_replay.BufferPool.Occurrences.{occurrences, occurrences-append}
use aeron_archive_replay.BufferPool.Ownership.{Shared, Owns}

-- The queue holds the buffers `pending`, oldest first, and no null pointer.
pub record Holds (size : ℕ) (q : MessageQueue) (pending : List ℕ) : Type 0 where
  pub valid : IsValid size q
  pub contents : items size q ≡ map some pending

-- What is pending is in no one else's hands.
pub record Flows (pool_size queue_size : ℕ) (pool : BufferPool) (queue : MessageQueue)
    (pending : List ℕ) : Type 0 where
  pub holds : Holds queue_size queue pending
  pub owns : Owns pool_size pool pending

pub length-map : (xs : List ℕ) → length (map {B = Option ℕ} some xs) ≡ length xs
length-map [] = refl
length-map (x ∷ xs) = ap suc (length-map xs)

map-snoc :
    (xs : List ℕ) (i : ℕ) → map {B = Option ℕ} some (xs ++ i ∷ []) ≡ map some xs ++ some i ∷ []
map-snoc [] i = refl
map-snoc (x ∷ xs) i = ap (◌∷◌ (some x)) (map-snoc xs i)

-- A buffer may be put last among those that clients hold.
pub Owns-rotate :
    {size : ℕ} {p : BufferPool} (i : ℕ) (held : List ℕ)
    → Owns size p (i ∷ held)
    → Owns size p (held ++ i ∷ [])
unfolding occurrences
Owns-rotate i held v = record {
  buffers_length = v.buffers_length;
  shared = record {
    list_length = v.shared.list_length;
    all = omega (arith, v.shared.all, length-append held (i ∷ []));
    one_owner = λ j h. omega (arith, v.shared.one_owner j h, occurrences-append j held (i ∷ []));
    no_other = λ j h. omega (arith, v.shared.no_other j h, occurrences-append j held (i ∷ []));
  };
}

module _ {size : ℕ} (s : IsSize size) {q : MessageQueue} {pending : List ℕ} where
  pub enqueue-Holds :
      (i : ℕ)
      → Holds size q pending
      → let r = enqueue size q (some i) in
        ((r.0 ≡ true) × Holds size r.1 (pending ++ i ∷ []))
        ⊎ ((r.0 ≡ false) × (length pending ≡ size - 1) × Holds size r.1 pending)
  unfolding enqueue Fifo.push
  enqueue-Holds i v = elim (Bool-cases (ltb (length (items size q)) (size - 1))) [
    | inl e ↦
        let k = enqueue_buffer_refines s v.valid i ∙ if_true _ e in
        inl (
          ap (λ r. r.0) k,
          record {
            valid = enqueue_buffer-IsValid s i v.valid;
            contents =
                ap (λ r. r.1) k ∙ ap (λ l. l ++ some i ∷ []) v.contents ∙ sym (map-snoc pending i);
          },
        )
    | inr e ↦
        let k = enqueue_buffer_refines s v.valid i ∙ if_false _ e in
        inr (
          ap (λ r. r.0) k,
          bounded (ltb→ge _ _ e),
          record {
            valid = enqueue_buffer-IsValid s i v.valid;
            contents = ap (λ r. r.1) k ∙ v.contents;
          },
        )
  ]
    where
      bounded : size - 1 ≤ length (items size q) → length pending ≡ size - 1
      bounded h = omega (arith, h, count, room)
        where
          count : length (items size q) ≡ length pending
          count = ap length v.contents ∙ length-map pending

          room : length (items size q) < size
          room = length-items s v.valid

module _ {size : ℕ} (s : IsSize size) {q : MessageQueue} where
  pub dequeue-Holds :
      {i : ℕ} {rest : List ℕ}
      → Holds size q (i ∷ rest)
      → let r = dequeue size q none in (r.0 ≡ true) × (r.1 ≡ some i) × Holds size r.2 rest
  unfolding Fifo.pop
  dequeue-Holds {i} {rest} v =
      let k = dequeue_refines s v.valid none ∙ ap (λ l. Fifo.pop l none) v.contents in
      (
        ap (λ r. r.0) k,
        ap (λ r. r.1) k,
        record { valid = dequeue-IsValid s none v.valid; contents = ap (λ r. r.2) k },
      )

  pub dequeue-Holds_empty :
      Holds size q [] → let r = dequeue size q none in (r.0 ≡ false) × Holds size r.2 []
  unfolding Fifo.pop
  dequeue-Holds_empty v =
      let k = dequeue_refines s v.valid none ∙ ap (λ l. Fifo.pop l none) v.contents in
      (
        ap (λ r. r.0) k,
        record { valid = dequeue-IsValid s none v.valid; contents = ap (λ r. r.2) k },
      )
