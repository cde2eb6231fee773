-- ===== src/Pipeline/Draining.antt =====
-- The worker's loop against the messages that are queued.
use aeron_archive_replay.Ring.Size.{IsSize}
use aeron_archive_replay.Base.{
  ℕ, ◌≤◌, ◌≡◌, refl, sym, ◌∙◌, subst, Bool, true, none, some, List, [], ◌∷◌, length, ltb, if_true,
  if_both, arith,
}
use aeron_archive_replay.MessageQueue.{Pointer, dequeue}
use aeron_archive_replay.MessageWorker.{
  MessageWorker, Shop, Clock, has_seen, seen_limit, check_duplicate, process_message,
  validate_message, work_on, work_in, sampled, pass, worker_thread_main,
}
use aeron_archive_replay.MessageBuffer.{MessageBuffer}
use aeron_archive_replay.BufferPool.{buffer_at}
use aeron_archive_replay.Pipeline.{Flows}
use aeron_archive_replay.Pipeline.Working.{pass-Flows, pass-Flows_empty}

abbrev running : Shop → Bool
running s = s.worker.running

check_duplicate-running : (w : MessageWorker) (n : ℕ) → (check_duplicate w n).1.running ≡ w.running
unfolding check_duplicate
check_duplicate-running w n =
    let f = λ (r : Bool × MessageWorker). r.1.running in
    if_both (has_seen w.seen_sequences n) f {c = w.running} refl
      (if_both (ltb seen_limit (length (n ∷ w.seen_sequences))) f refl refl)

process_message-running :
    (w : MessageWorker) (b : MessageBuffer) → (process_message w b).running ≡ w.running
unfolding process_message
process_message-running w b = if_both w.has_handler (λ (v : MessageWorker). v.running) refl refl

module _ (pool_size queue_size stats_size : ℕ) where
  work_on-running :
      (s : Shop) (i : ℕ) (c : Clock)
      → running (work_on pool_size queue_size stats_size s i c) ≡ running s
  unfolding work_on validate_message
  work_on-running s i c =
      let b = record (buffer_at s.pool i) { worker_dequeue_time_ns = c.dequeue_time } in
      let checked = check_duplicate s.worker b.header.sequence_number in
      if_both checked.0 running {c = running s} refl (
        process_message-running checked.1 b
        ∙ check_duplicate-running s.worker b.header.sequence_number)

  work_in-running :
      (s : Shop) (p : Pointer) (c : Clock)
      → running (work_in pool_size queue_size stats_size s p c) ≡ running s
  unfolding work_in
  work_in-running s none c = refl
  work_in-running s (some i) c = work_on-running s i c

  pass-running :
      (s : Shop) (c : Clock) → running (pass pool_size queue_size stats_size s c) ≡ running s
  unfolding pass sampled
  pass-running s c =
      let taken = sampled pool_size queue_size stats_size s (dequeue queue_size s.queue none).2 in
      if_both (dequeue queue_size s.queue none).0 running
        (work_in-running taken (dequeue queue_size s.queue none).1 c) refl

module _ {pool_size queue_size : ℕ} (size : IsSize queue_size) (stats_size : ℕ) where
  -- Where every buffer is free or queued, a running worker that gets at least as many turns as
  -- messages are queued, with no others coming, empties the queue, and every buffer is free.
  pub worker_thread_main-Flows :
      (clocks : List Clock) (s : Shop) (pending : List ℕ)
      → Flows pool_size queue_size s.pool s.queue pending
      → s.worker.running ≡ true
      → length pending ≤ length clocks
      → let r = worker_thread_main pool_size queue_size stats_size s clocks in
        Flows pool_size queue_size r.pool r.queue []
  unfolding worker_thread_main
  worker_thread_main-Flows [] s [] v on h = v
  worker_thread_main-Flows [] s (i ∷ pending) v on h = absurd (omega arith)
  worker_thread_main-Flows (c ∷ clocks) s [] v on h =
      let t = pass pool_size queue_size stats_size s c in
      subst (λ (r : Shop). Flows pool_size queue_size r.pool r.queue []) (sym (if_true s on))
        (worker_thread_main-Flows clocks t [] (pass-Flows_empty size stats_size s c v).0
          (pass-running pool_size queue_size stats_size s c ∙ on) (omega arith))
  worker_thread_main-Flows (c ∷ clocks) s (i ∷ pending) v on h =
      let t = pass pool_size queue_size stats_size s c in
      subst (λ (r : Shop). Flows pool_size queue_size r.pool r.queue []) (sym (if_true s on))
        (worker_thread_main-Flows clocks t pending (pass-Flows size stats_size s c v)
          (pass-running pool_size queue_size stats_size s c ∙ on) (omega arith))
