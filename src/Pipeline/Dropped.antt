-- ===== src/Pipeline/Dropped.antt =====
-- A message that is dropped because the queue is full, delivered again.
use aeron_archive_replay.Base.{
  ℕ, ◌<◌, ◌≡◌, ◌≢◌, ◌⊎◌, inl, inr, refl, sym, ap, ◌∙◌, subst, Bool-cases, true, ◌&&◌, some, List,
  [], length, arith,
}
use aeron_archive_replay.MessageHeader.{zeroed}
use aeron_archive_replay.MessageBuffer.{reset}
use aeron_archive_replay.BufferPool.{buffer_at, allocate}
use aeron_archive_replay.BufferPool.Ownership.{Owns, held-lt, allocate-Owns}
use aeron_archive_replay.MessageQueue.{Pointer, enqueue}
use aeron_archive_replay.AeronSubscriber.{System}
use aeron_archive_replay.AeronSubscriber.Recording.{Archive}
use aeron_archive_replay.AeronSubscriber.Tracking.{is_duplicate}
use aeron_archive_replay.AeronSubscriber.Window.{IsWindow}
use aeron_archive_replay.AeronSubscriber.FastPath.{
  Fragment, fill, track_gap, track_message, hand_over, receive, receive_in,
  handle_message_fast_path,
}
use aeron_archive_replay.Pipeline.Receiving.{
  tally, count_message-tally, track_gap-tally, track_message-tally,
}
use aeron_archive_replay.Pipeline.Refused.{
  number_of, seen, refuses, filled-number, track_gap-IsWindow, track_message-refuses,
  handle-refused,
}

module _ (pool_size queue_size : ℕ) (archive : Archive) where
  -- Either the message was not dropped for a full queue, or its number is in the window.
  abbrev Remembers : (failures : ℕ) → Fragment → System → Type 0
  Remembers failures f t =
      (t.subscriber.zc_queue_full_failures ≡ failures)
      ⊎ (refuses (seen t.subscriber) (number_of f) ≡ true)

  hand_over-Remembers :
      {failures : ℕ} (s : System) (i : ℕ) (f : Fragment)
      → s.subscriber.zc_queue_full_failures ≡ failures
      → refuses (seen s.subscriber) (number_of f) ≡ true
      → Remembers failures f (hand_over pool_size queue_size archive s i f)
  unfolding hand_over tally seen
  hand_over-Remembers s i f e known = elim (Bool-cases (enqueue queue_size s.queue (some i)).0) [
    | inl done ↦ rw done (inl (ap (λ t. t.no_room) (count_message-tally s.subscriber _ _ _) ∙ e))
    | inr full ↦ rw full (inr known)
  ]

  receive-Remembers :
      (s : System) (i : ℕ) (f : Fragment)
      → IsWindow s.subscriber
      → i < length s.pool.buffers
      → (buffer_at s.pool i).header ≡ zeroed
      → Remembers s.subscriber.zc_queue_full_failures f (receive pool_size queue_size archive s i f)
  unfolding receive tally
  receive-Remembers s i f v h zeros =
      let pool = fill s.pool i f in
      let n = (buffer_at pool i).header.sequence_number in
      let sub = track_gap archive s.subscriber n in
      let same = ap (λ t. t.no_room) (track_gap-tally archive s.subscriber n) in
      elim (Bool-cases (sub.config.duplicate_check_enabled && is_duplicate sub n)) [
        | inl known ↦ rw known (inl same)
        | inr new ↦ rw new (
            hand_over-Remembers (record s { pool = pool; subscriber = track_message sub n }) i f
              (ap (λ t. t.no_room) (track_message-tally sub n) ∙ same)
              (subst (λ m. refuses (seen (track_message sub n)) m ≡ true)
                (filled-number s.pool i f h zeros)
                (track_message-refuses sub n (track_gap-IsWindow archive s.subscriber n v))))
      ]

  handle-Remembers :
      (s : System) (f : Fragment) {held : List ℕ}
      → IsWindow s.subscriber
      → Owns pool_size s.pool held
      → Remembers s.subscriber.zc_queue_full_failures f
          (handle_message_fast_path pool_size queue_size archive s f)
  unfolding handle_message_fast_path receive_in reset
  handle-Remembers s f {held} w v =
      let from = record s { pool = (allocate s.pool).0 } in
      let goal = λ (p : Pointer).
        Remembers s.subscriber.zc_queue_full_failures f
          (receive_in pool_size queue_size archive from p f) in
      elim (allocate-Owns pool_size v) [
        | inl k ↦ subst goal (sym k.1) (inl refl)
        | inr (i, less, given, new, owns, zeros) ↦ subst goal (sym given) (
            receive-Remembers from i f w
              (omega (arith, held-lt pool_size [] held i owns.shared, owns.buffers_length))
              (ap (λ b. b.header) zeros))
      ]

  -- Where duplicates are checked for in a window that has slots, its position one of them, and
  -- every buffer is owned once: after a message was dropped because the queue was full, a message
  -- with the same number is not received, whatever the queue and the pool are then, so long as the
  -- subscriber has handled no other in between.
  pub dropped_refused :
      (s : System) (f : Fragment) (held : List ℕ)
      → IsWindow s.subscriber
      → Owns pool_size s.pool held
      → let t = handle_message_fast_path pool_size queue_size archive s f in
        t.subscriber.zc_queue_full_failures ≢ s.subscriber.zc_queue_full_failures
        → (u : System) (again : Fragment) (held' : List ℕ) → u.subscriber ≡ t.subscriber
        → Owns pool_size u.pool held'
        → number_of again ≡ number_of f
        → (handle_message_fast_path pool_size queue_size archive u
            again).subscriber.zc_messages_received
          ≡ u.subscriber.zc_messages_received
  dropped_refused s f held w v dropped u again held' same owns number =
      handle-refused pool_size queue_size archive u again owns (elim (handle-Remembers s f w v) [
        | inl e ↦ absurd (dropped e)
        | inr known ↦
            ap (refuses (seen u.subscriber)) number
            ∙ ap (λ x. refuses (seen x) (number_of f)) same
            ∙ known
      ])
