-- ===== src/Pipeline/Receiving.antt =====
-- What the handling of one message does to the buffers and to the subscriber's counters.
use aeron_archive_replay.Ring.Size.{IsSize}
use aeron_archive_replay.Base.{
  ℕ, subst, slt, ◌==◌, Option-cases, ◌-◌, ◌<◌, ◌≡◌, refl, sym, ap, ◌∙◌, inl, inr, Bool-cases,
  if_both, Bool, not, ◌&&◌, List, [], ◌∷◌, ◌++◌, length, length-set, add64, arith,
}
use aeron_archive_replay.BufferPool.{BufferPool, buffer_at, allocate}
use aeron_archive_replay.BufferPool.Ownership.{Owns, allocate-Owns, deallocate-Owns}
use aeron_archive_replay.MessageQueue.{Pointer}
use aeron_archive_replay.AeronSubscriber.{AeronSubscriber, System}
use aeron_archive_replay.AeronSubscriber.Recording.{Archive}
use aeron_archive_replay.AeronSubscriber.Tracking.{
  check_for_gaps, is_duplicate, add_to_deduplication_buffer, trigger_immediate_gap_recovery,
}
use aeron_archive_replay.AeronSubscriber.FastPath.{
  Fragment, fill, track_gap, track_message, count_message, hand_over, receive, receive_in,
  handle_message_fast_path,
}
use aeron_archive_replay.Pipeline.{Holds, Flows, Owns-rotate, enqueue-Holds}

-- The counters that say what became of each message.
pub record Tally : Type 0 where
  pub received : ℕ
  pub no_buffer : ℕ
  pub no_room : ℕ
  pub duplicate : ℕ

unfoldable pub tally : AeronSubscriber → Tally
tally s = record {
  received = s.zc_messages_received;
  no_buffer = s.zc_buffer_allocation_failures;
  no_room = s.zc_queue_full_failures;
  duplicate = s.duplicates_detected;
}

abbrev pub one_received : Tally → Tally
one_received t = record t { received = add64 t.received 1 }

abbrev pub one_no_buffer : Tally → Tally
one_no_buffer t = record t { no_buffer = add64 t.no_buffer 1 }

abbrev pub one_no_room : Tally → Tally
one_no_room t = record t { no_room = add64 t.no_room 1 }

abbrev pub one_duplicate : Tally → Tally
one_duplicate t = record t { duplicate = add64 t.duplicate 1 }

check_for_gaps-tally : (s : AeronSubscriber) (n : ℕ) → tally (check_for_gaps s n).1 ≡ tally s
unfolding check_for_gaps tally
check_for_gaps-tally s n =
    let f = λ (r : Bool × AeronSubscriber). tally r.1 in
    if_both (s.expected_sequence == 0) f refl
      (if_both (slt n s.expected_sequence) f refl (if_both (slt s.expected_sequence n) f refl refl))

trigger-tally :
    (a : Archive) (s : AeronSubscriber) (from to : ℕ)
    → tally (trigger_immediate_gap_recovery a s from to).1 ≡ tally s
unfolding trigger_immediate_gap_recovery tally
trigger-tally a s from to =
    let f = λ (r : Bool × AeronSubscriber). tally r.1 in
    if_both (not s.archive) f refl (if_both _ f refl refl)

pub track_gap-tally :
    (a : Archive) (s : AeronSubscriber) (n : ℕ) → tally (track_gap a s n) ≡ tally s
unfolding track_gap tally
track_gap-tally a s n = if_both (not s.config.gap_recovery_enabled) tally refl (
    if_both (not (check_for_gaps s n).0) tally (check_for_gaps-tally s n) (
      trigger-tally a (record (check_for_gaps s n).1 { gaps_detected = _ }) _ _
      ∙ check_for_gaps-tally s n))

pub track_message-tally : (s : AeronSubscriber) (n : ℕ) → tally (track_message s n) ≡ tally s
unfolding track_message add_to_deduplication_buffer tally
track_message-tally s n =
    if_both s.config.duplicate_check_enabled tally (if_both _ tally refl refl) refl

pub count_message-tally :
    (s : AeronSubscriber) (n p t : ℕ) → tally (count_message s n p t) ≡ one_received (tally s)
unfolding count_message tally
count_message-tally s n p t = elim (Option-cases s.checkpoint) [
  | inl e ↦ rw e refl
  | inr k ↦ rw k.1 refl
]

module _ (pool_size queue_size : ℕ) (pending : List ℕ) where
  abbrev pub Flowing : System → List ℕ → Type 0
  Flowing s held = Flows pool_size queue_size s.pool s.queue held

  -- What may become of a message: the pool or the queue has no room for it, it is a duplicate, or its
  -- buffer is the queue's last.
  pub data Outcome (before after : System) : Type 0 where
    no_buffer :
        length pending ≡ pool_size
        → tally after.subscriber ≡ one_no_buffer (tally before.subscriber)
        → Flowing after pending
        → Outcome before after
    duplicate :
        tally after.subscriber ≡ one_duplicate (tally before.subscriber)
        → Flowing after pending
        → Outcome before after
    no_room :
        length pending ≡ queue_size - 1
        → length pending < pool_size
        → tally after.subscriber ≡ one_no_room (tally before.subscriber)
        → Flowing after pending
        → Outcome before after
    received :
        (i : ℕ)
        → tally after.subscriber ≡ one_received (tally before.subscriber)
        → Flowing after (pending ++ i ∷ [])
        → Outcome before after

filled-Owns :
    {pool_size : ℕ} {pool : BufferPool} {held : List ℕ} (i : ℕ) (f : Fragment)
    → Owns pool_size pool held
    → Owns pool_size (fill pool i f) held
unfolding fill
filled-Owns {pool = pool} i f v = record {
  buffers_length = length-set pool.buffers i _ ∙ v.buffers_length;
  shared = v.shared;
}

module _ {pool_size queue_size : ℕ} (size : IsSize queue_size) (archive : Archive)
    {pending : List ℕ} where
  handed_over :
      {before : System} (s : System) (i : ℕ) (f : Fragment)
      → tally s.subscriber ≡ tally before.subscriber
      → Holds queue_size s.queue pending
      → Owns pool_size s.pool (i ∷ pending)
      → Outcome pool_size queue_size pending before (hand_over pool_size queue_size archive s i f)
  unfolding hand_over tally
  handed_over {before} s i f e holds owns = elim (enqueue-Holds size i holds) [
    | inl k ↦ rw k.0 (
        Outcome.received i (count_message-tally s.subscriber _ _ _ ∙ ap one_received e)
          (record { holds = k.1; owns = Owns-rotate i pending owns }))
    | inr k ↦ rw k.0 (
        Outcome.no_room k.1 (omega (arith, owns.shared.all)) (ap one_no_room e)
          (record { holds = k.2; owns = deallocate-Owns pool_size [] pending i owns }))
  ]

  received_in :
      {before : System} (s : System) (i : ℕ) (f : Fragment)
      → tally s.subscriber ≡ tally before.subscriber
      → Holds queue_size s.queue pending
      → Owns pool_size s.pool (i ∷ pending)
      → Outcome pool_size queue_size pending before (receive pool_size queue_size archive s i f)
  unfolding receive tally
  received_in {before} s i f e holds owns =
      let pool = fill s.pool i f in
      let n = (buffer_at pool i).header.sequence_number in
      let sub = track_gap archive s.subscriber n in
      let tracked = track_gap-tally archive s.subscriber n ∙ e in
      elim (Bool-cases (sub.config.duplicate_check_enabled && is_duplicate sub n)) [
        | inl k ↦ rw k (
            Outcome.duplicate (ap one_duplicate tracked) (record {
              holds = holds;
              owns = deallocate-Owns pool_size [] pending i (filled-Owns i f owns);
            }))
        | inr k ↦ rw k (
            handed_over (record s { pool = pool; subscriber = track_message sub n }) i f
              (track_message-tally sub n ∙ tracked) holds (filled-Owns i f owns))
      ]

  -- Where every buffer is free or queued, the handling of a message has one of four outcomes: no
  -- free buffer, a duplicate, no room in the queue, or received; the counter of that outcome alone
  -- is one higher, and the message's buffer is free again or the queue's last.
  pub handle_message_fast_path-Outcome :
      (s : System) (f : Fragment)
      → Flows pool_size queue_size s.pool s.queue pending
      → Outcome pool_size queue_size pending s
          (handle_message_fast_path pool_size queue_size archive s f)
  unfolding handle_message_fast_path receive_in tally
  handle_message_fast_path-Outcome s f v =
      let from = record s { pool = (allocate s.pool).0 } in
      let whole = λ (p : Pointer).
        Outcome pool_size queue_size pending s (receive_in pool_size queue_size archive from p f) in
      elim (allocate-Owns pool_size v.owns) [
        | inl k ↦
            subst whole (sym k.1)
              (Outcome.no_buffer k.0 refl (record { holds = v.holds; owns = k.2 }))
        | inr k ↦ subst whole (sym k.2) (received_in from k.0 f refl v.holds k.4)
      ]
