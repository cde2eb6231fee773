-- ===== src/Pipeline/Finished.antt =====
-- How many messages the worker has done with.
use aeron_archive_replay.Ring.Size.{IsSize}
use aeron_archive_replay.Base.{
  Bool, ℕ, ◌+◌, ◌%◌, ◌^◌, ◌≡◌, refl, sym, ap, ◌∙◌, subst, if_both, none, List, [], ◌∷◌, length, ltb,
  arith,
}
use aeron_archive_replay.MessageBuffer.{MessageBuffer}
use aeron_archive_replay.BufferPool.{buffer_at}
use aeron_archive_replay.MessageQueue.{Pointer, dequeue}
use aeron_archive_replay.MessageWorker.{
  MessageWorker, Shop, Clock, has_seen, seen_limit, check_duplicate, process_message,
  validate_message, work_on, work_in, sampled, pass,
}
use aeron_archive_replay.Pipeline.{Flows, dequeue-Holds, dequeue-Holds_empty}

-- The counters for what became of a message.
record Ends : Type 0 where
  pub processed : ℕ
  pub invalid : ℕ
  pub duplicate : ℕ

ends : MessageWorker → Ends
ends w = record {
  processed = w.messages_processed;
  invalid = w.messages_invalid;
  duplicate = w.messages_duplicate;
}

-- The messages that were processed, refused as invalid, or refused as duplicates.
unfoldable pub finished : MessageWorker → ℕ
finished w = w.messages_processed + w.messages_invalid + w.messages_duplicate

check_duplicate-ends : (w : MessageWorker) (n : ℕ) → ends (check_duplicate w n).1 ≡ ends w
unfolding check_duplicate ends
check_duplicate-ends w n =
    let f = λ (r : Bool × MessageWorker). ends r.1 in
    if_both (has_seen w.seen_sequences n) f {c = ends w} refl
      (if_both (ltb seen_limit (length (n ∷ w.seen_sequences))) f refl refl)

process_message-ends : (w : MessageWorker) (b : MessageBuffer) → ends (process_message w b) ≡ ends w
unfolding process_message ends
process_message-ends w b = if_both w.has_handler ends {c = ends w} refl refl

module _ (pool_size queue_size stats_size : ℕ) where
  work_on-finished :
      (s : Shop) (i : ℕ) (c : Clock)
      → finished (work_on pool_size queue_size stats_size s i c).worker % 2 ^ 64
        ≡ (finished s.worker + 1) % 2 ^ 64
  unfolding work_on validate_message finished ends
  work_on-finished s i c =
      let b = record (buffer_at s.pool i) { worker_dequeue_time_ns = c.dequeue_time } in
      let checked = check_duplicate s.worker b.header.sequence_number in
      let kept =
        process_message-ends checked.1 b ∙ check_duplicate-ends s.worker b.header.sequence_number in
      if_both checked.0 (λ (r : Shop). finished r.worker % 2 ^ 64) (omega arith)
        (omega
          (arith, ap (λ e. e.processed) kept, ap (λ e. e.invalid) kept, ap (λ e. e.duplicate) kept))

module _ {pool_size queue_size : ℕ} (size : IsSize queue_size) (stats_size : ℕ) where
  pub pass-finished :
      (s : Shop) (c : Clock) {i : ℕ} {pending : List ℕ}
      → Flows pool_size queue_size s.pool s.queue (i ∷ pending)
      → finished (pass pool_size queue_size stats_size s c).worker % 2 ^ 64
        ≡ (finished s.worker + 1) % 2 ^ 64
  unfolding pass work_in sampled finished
  pass-finished s c {i} v =
      let k = dequeue-Holds size v.holds in
      let taken = sampled pool_size queue_size stats_size s (dequeue queue_size s.queue none).2 in
      let goal : Pointer → Type 0 = λ p.
        finished (work_in pool_size queue_size stats_size taken p c).worker % 2 ^ 64
        ≡ (finished s.worker + 1) % 2 ^ 64 in
      rw k.0 (subst goal (sym k.1) (work_on-finished pool_size queue_size stats_size taken i c))

  pub pass-finished_empty :
      (s : Shop) (c : Clock)
      → Flows pool_size queue_size s.pool s.queue []
      → finished (pass pool_size queue_size stats_size s c).worker ≡ finished s.worker
  unfolding pass sampled finished
  pass-finished_empty s c v = rw (dequeue-Holds_empty size v.holds).0 refl
