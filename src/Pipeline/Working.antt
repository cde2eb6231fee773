-- ===== src/Pipeline/Working.antt =====
-- What one pass of the worker does to the buffers and to its counters.
use aeron_archive_replay.Ring.Size.{IsSize}
use aeron_archive_replay.Base.{
  ℕ, ◌≡◌, refl, sym, ◌∙◌, subst, if_both, none, some, List, [], ◌∷◌, length-set, set, add64,
}
use aeron_archive_replay.BufferPool.{buffer_at, deallocate}
use aeron_archive_replay.BufferPool.Ownership.{Owns, deallocate-Owns}
use aeron_archive_replay.MessageQueue.{Pointer, dequeue}
use aeron_archive_replay.MessageWorker.{
  Shop, Clock, validate_message, work_on, work_in, sampled, pass,
}
use aeron_archive_replay.Pipeline.{Holds, Flows, dequeue-Holds, dequeue-Holds_empty}

module _ (pool_size queue_size stats_size : ℕ) where
  work_on-pool :
      (s : Shop) (i : ℕ) (c : Clock)
      → let b = record (buffer_at s.pool i) { worker_dequeue_time_ns = c.dequeue_time } in
        ((work_on pool_size queue_size stats_size s i c).pool
          ≡ deallocate pool_size (record s.pool { buffers = set s.pool.buffers i b }) (some i))
        × ((work_on pool_size queue_size stats_size s i c).queue ≡ s.queue)
  unfolding work_on validate_message
  work_on-pool s i c =
      (if_both _ (λ (r : Shop). r.pool) refl refl, if_both _ (λ (r : Shop). r.queue) refl refl)

  -- A buffer that the worker takes goes back to the pool.
  work_on-Flows :
      (s : Shop) (i : ℕ) (c : Clock) {pending : List ℕ}
      → Holds queue_size s.queue pending
      → Owns pool_size s.pool (i ∷ pending)
      → let r = work_on pool_size queue_size stats_size s i c in
        Flows pool_size queue_size r.pool r.queue pending
  work_on-Flows s i c {pending} holds owns =
      rw ((work_on-pool s i c).0, (work_on-pool s i c).1)
        (record {
          holds = holds;
          owns = deallocate-Owns pool_size [] pending i (record {
            buffers_length = length-set s.pool.buffers i _ ∙ owns.buffers_length;
            shared = owns.shared;
          });
        })

module _ {pool_size queue_size : ℕ} (size : IsSize queue_size) (stats_size : ℕ) where
  -- Where every buffer is free or queued and some are queued, a worker pass takes the first one
  -- off the queue, and every buffer is then again free or queued.
  pub pass-Flows :
      (s : Shop) (c : Clock) {i : ℕ} {pending : List ℕ}
      → Flows pool_size queue_size s.pool s.queue (i ∷ pending)
      → let r = pass pool_size queue_size stats_size s c in
        Flows pool_size queue_size r.pool r.queue pending
  unfolding pass work_in sampled
  pass-Flows s c {i} {pending} v =
      let k = dequeue-Holds size v.holds in
      let taken = sampled pool_size queue_size stats_size s (dequeue queue_size s.queue none).2 in
      let flows : Pointer → Type 0 = λ p.
        let r = work_in pool_size queue_size stats_size taken p c in
        Flows pool_size queue_size r.pool r.queue pending in
      rw k.0
        (subst flows (sym k.1) (work_on-Flows pool_size queue_size stats_size taken i c k.2 v.owns))

  -- Where every buffer is free, a worker pass leaves the pool and the handled messages as they
  -- are, counts one empty queue, and leaves the queue empty.
  pub pass-Flows_empty :
      (s : Shop) (c : Clock)
      → Flows pool_size queue_size s.pool s.queue []
      → let r = pass pool_size queue_size stats_size s c in
        Flows pool_size queue_size r.pool r.queue []
        × (r.pool ≡ s.pool)
        × (r.worker.queue_empty_count ≡ add64 s.worker.queue_empty_count 1)
        × (r.worker.handled ≡ s.worker.handled)
  unfolding pass sampled
  pass-Flows_empty s c v =
      let k = dequeue-Holds_empty size v.holds in
      rw k.0 (record { holds = k.1; owns = v.owns }, refl, refl, refl)
