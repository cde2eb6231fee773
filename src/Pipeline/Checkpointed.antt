-- ===== src/Pipeline/Checkpointed.antt =====
-- What the handling of a message does to the checkpoint.
use aeron_archive_replay.Base.{
  ℕ, ◌≡◌, ◌≢◌, ◌⊎◌, inl, inr, refl, ap, ◌∙◌, if_both, Bool-cases, Bool, not, ◌&&◌, none, some, ◌==◌,
  slt,
}
use aeron_archive_replay.BufferPool.{buffer_at, allocate}
use aeron_archive_replay.MessageQueue.{Pointer, enqueue}
use aeron_archive_replay.CheckpointManager.{CheckpointManager, update}
use aeron_archive_replay.AeronSubscriber.{AeronSubscriber, System}
use aeron_archive_replay.AeronSubscriber.Recording.{Archive}
use aeron_archive_replay.AeronSubscriber.Tracking.{
  check_for_gaps, is_duplicate, add_to_deduplication_buffer, trigger_immediate_gap_recovery,
}
use aeron_archive_replay.AeronSubscriber.FastPath.{
  Fragment, fill, track_gap, track_message, count_message, hand_over, receive, receive_in,
  handle_message_fast_path,
}
use aeron_archive_replay.Pipeline.Receiving.{tally, track_gap-tally, track_message-tally}

check_for_gaps-checkpoint :
    (s : AeronSubscriber) (n : ℕ) → (check_for_gaps s n).1.checkpoint ≡ s.checkpoint
unfolding check_for_gaps
check_for_gaps-checkpoint s n =
    let f = λ (r : Bool × AeronSubscriber). r.1.checkpoint in
    if_both (s.expected_sequence == 0) f refl
      (if_both (slt n s.expected_sequence) f refl (if_both (slt s.expected_sequence n) f refl refl))

trigger-checkpoint :
    (a : Archive) (s : AeronSubscriber) (from to : ℕ)
    → (trigger_immediate_gap_recovery a s from to).1.checkpoint ≡ s.checkpoint
unfolding trigger_immediate_gap_recovery
trigger-checkpoint a s from to =
    let f = λ (r : Bool × AeronSubscriber). r.1.checkpoint in
    if_both (not s.archive) f refl (if_both _ f refl refl)

track_gap-checkpoint :
    (a : Archive) (s : AeronSubscriber) (n : ℕ) → (track_gap a s n).checkpoint ≡ s.checkpoint
unfolding track_gap
track_gap-checkpoint a s n =
    let f = λ (t : AeronSubscriber). t.checkpoint in
    if_both (not s.config.gap_recovery_enabled) f refl (
      if_both (not (check_for_gaps s n).0) f (check_for_gaps-checkpoint s n) (
        trigger-checkpoint a (record (check_for_gaps s n).1 { gaps_detected = _ }) _ _
        ∙ check_for_gaps-checkpoint s n))

track_message-checkpoint :
    (s : AeronSubscriber) (n : ℕ) → (track_message s n).checkpoint ≡ s.checkpoint
unfolding track_message add_to_deduplication_buffer
track_message-checkpoint s n =
    let f = λ (t : AeronSubscriber). t.checkpoint in
    if_both s.config.duplicate_check_enabled f (if_both _ f refl refl) refl

-- The checkpoint of a subscriber that keeps one, as far as a message that was counted moves it.
abbrev pub At : ℕ → AeronSubscriber → Type 0
At position s =
    (c : CheckpointManager) × (s.checkpoint ≡ some c) × (c.checkpoint_data.last_position ≡ position)

count_message-At :
    (s : AeronSubscriber) (n p t : ℕ) {m : CheckpointManager}
    → s.checkpoint ≡ some m
    → At p (count_message s n p t)
unfolding count_message update
count_message-At s n p t e = rw e (_, refl, refl)

-- Either the message was not counted as received, or the checkpoint is at its position.
abbrev Moves : (received position : ℕ) → System → Type 0
Moves received position t =
    (t.subscriber.zc_messages_received ≡ received) ⊎ At position t.subscriber

module _ (pool_size queue_size : ℕ) (archive : Archive) (f : Fragment) where
  hand_over-Moves :
      {received : ℕ} {m : CheckpointManager} (s : System) (i : ℕ)
      → s.subscriber.zc_messages_received ≡ received
      → s.subscriber.checkpoint ≡ some m
      → Moves received f.position (hand_over pool_size queue_size archive s i f)
  unfolding hand_over
  hand_over-Moves s i e k = elim (Bool-cases (enqueue queue_size s.queue (some i)).0) [
    | inl done ↦ rw done (inr (count_message-At s.subscriber _ _ _ k))
    | inr full ↦ rw full (inl e)
  ]

  receive-Moves :
      {received : ℕ} {m : CheckpointManager} (s : System) (i : ℕ)
      → s.subscriber.zc_messages_received ≡ received
      → s.subscriber.checkpoint ≡ some m
      → Moves received f.position (receive pool_size queue_size archive s i f)
  unfolding receive tally
  receive-Moves {received} s i e k =
      let pool = fill s.pool i f in
      let n = (buffer_at pool i).header.sequence_number in
      let sub = track_gap archive s.subscriber n in
      let same = ap (λ t. t.received) (track_gap-tally archive s.subscriber n) ∙ e in
      elim (Bool-cases (sub.config.duplicate_check_enabled && is_duplicate sub n)) [
        | inl seen ↦ rw seen (inl same)
        | inr new ↦ rw new (
            hand_over-Moves (record s { pool = pool; subscriber = track_message sub n }) i
              (ap (λ t. t.received) (track_message-tally sub n) ∙ same)
              (track_message-checkpoint sub n ∙ track_gap-checkpoint archive s.subscriber n ∙ k))
      ]

  receive_in-Moves :
      {received : ℕ} {m : CheckpointManager} (s : System) (p : Pointer)
      → s.subscriber.zc_messages_received ≡ received
      → s.subscriber.checkpoint ≡ some m
      → Moves received f.position (receive_in pool_size queue_size archive s p f)
  unfolding receive_in
  receive_in-Moves {received} s none e k = inl e
  receive_in-Moves {received} s (some i) e k = receive-Moves s i e k

-- Where the subscriber keeps a checkpoint, a message that is counted leaves it at its position.
pub handle_message_fast_path-At :
    (pool_size queue_size : ℕ) (archive : Archive) (f : Fragment) (s : System)
    {m : CheckpointManager}
    → s.subscriber.checkpoint ≡ some m
    → let t = handle_message_fast_path pool_size queue_size archive s f in
      t.subscriber.zc_messages_received ≢ s.subscriber.zc_messages_received
      → At f.position t.subscriber
unfolding handle_message_fast_path
handle_message_fast_path-At pool_size queue_size archive f s k ne =
    elim (receive_in-Moves pool_size queue_size archive f (record s { pool = (allocate s.pool).0 })
      (allocate s.pool).1 refl k) [ inl e ↦ absurd (ne e) | inr at ↦ at ]
