-- ===== src/Pipeline/Refused.antt =====
-- Which messages the duplicate window refuses.
use aeron_archive_replay.Base.{
  ℕ, ◌^◌, ◌<◌, ◌≡◌, inl, inr, refl, sym, ap, ◌∙◌, subst, if_both, if_true, Bool, true, false, not,
  ◌&&◌, ◌||◌, List, [], length, get_or-set_self, min, slt, ◌==◌, if◌then◌else◌, add64, arith,
}
use aeron_archive_replay.MessageHeader.{zeroed, header_size, encode, decode}
use aeron_archive_replay.MessageBuffer.{MessageBuffer, blank, memcpy, copy_from_aeron, reset}
use aeron_archive_replay.BufferPool.{BufferPool, buffer_at, allocate}
use aeron_archive_replay.BufferPool.Ownership.{Owns, held-lt, allocate-Owns}
use aeron_archive_replay.MessageQueue.{Pointer}
use aeron_archive_replay.AeronSubscriber.{AeronSubscriber, SubscriberConfig, System}
use aeron_archive_replay.AeronSubscriber.Recording.{Archive}
use aeron_archive_replay.AeronSubscriber.Tracking.{
  check_for_gaps, contains, is_duplicate, add_to_deduplication_buffer,
  trigger_immediate_gap_recovery,
}
use aeron_archive_replay.AeronSubscriber.Window.{IsWindow, record_all, is_duplicate-record_all}
use aeron_archive_replay.AeronSubscriber.FastPath.{
  Fragment, fill, track_gap, track_message, receive, receive_in, handle_message_fast_path,
}
use aeron_archive_replay.Pipeline.Receiving.{tally, track_gap-tally}

-- The sequence number that the subscriber reads in the message: a header that is cut off is filled
-- up with the zeros of a new buffer.
unfoldable pub number_of : Fragment → ℕ
number_of f =
    (decode (memcpy (encode zeroed) f.bytes (min (length f.bytes) header_size))).sequence_number

-- What `isDuplicate` reads.
pub record Seen : Type 0 where
  pub config : SubscriberConfig
  pub buffer : List ℕ
  pub position : ℕ

unfoldable pub seen : AeronSubscriber → Seen
seen s = record {
  config = s.config;
  buffer = s.duplicate_buffer;
  position = s.duplicate_buffer_pos;
}

unfoldable pub refuses : Seen → ℕ → Bool
unfolding contains
refuses w n =
    w.config.duplicate_check_enabled
    && (if not w.config.duplicate_check_enabled || length w.buffer == 0
        then false
        else contains w.buffer n)

pub refuses-seen :
    (s : AeronSubscriber) (n : ℕ)
    → refuses (seen s) n ≡ (s.config.duplicate_check_enabled && is_duplicate s n)
unfolding refuses seen is_duplicate
refuses-seen s n = refl

check_for_gaps-seen : (s : AeronSubscriber) (n : ℕ) → seen (check_for_gaps s n).1 ≡ seen s
unfolding check_for_gaps seen
check_for_gaps-seen s n =
    let f = λ (r : Bool × AeronSubscriber). seen r.1 in
    if_both (s.expected_sequence == 0) f refl
      (if_both (slt n s.expected_sequence) f refl (if_both (slt s.expected_sequence n) f refl refl))

trigger-seen :
    (a : Archive) (s : AeronSubscriber) (from to : ℕ)
    → seen (trigger_immediate_gap_recovery a s from to).1 ≡ seen s
unfolding trigger_immediate_gap_recovery seen
trigger-seen a s from to =
    let f = λ (r : Bool × AeronSubscriber). seen r.1 in
    if_both (not s.archive) f refl (if_both _ f refl refl)

pub track_gap-seen : (a : Archive) (s : AeronSubscriber) (n : ℕ) → seen (track_gap a s n) ≡ seen s
unfolding track_gap seen
track_gap-seen a s n = if_both (not s.config.gap_recovery_enabled) seen refl (
    if_both (not (check_for_gaps s n).0) seen (check_for_gaps-seen s n) (
      trigger-seen a (record (check_for_gaps s n).1 { gaps_detected = _ }) _ _
      ∙ check_for_gaps-seen s n))

copied-header :
    (b : MessageBuffer) (bytes : List ℕ)
    → (copy_from_aeron b bytes).header
      ≡ decode (memcpy (encode b.header) bytes (min (length bytes) header_size))
unfolding copy_from_aeron
copied-header b bytes = if_both _ (λ (c : MessageBuffer). c.header) refl refl

-- A buffer from the pool has a header of zeros.
pub filled-number :
    (pool : BufferPool) (i : ℕ) (f : Fragment)
    → i < length pool.buffers
    → (buffer_at pool i).header ≡ zeroed
    → (buffer_at (fill pool i f) i).header.sequence_number ≡ number_of f
unfolding fill buffer_at number_of
filled-number pool i f h zeros =
    let b = copy_from_aeron (buffer_at pool i) f.bytes in
    ap (λ (c : MessageBuffer). c.header.sequence_number)
      (get_or-set_self pool.buffers i
        (record b { header = record b.header { recv_time_ns = f.recv_timestamp } }) blank h)
    ∙ ap (λ g. g.sequence_number)
        (copied-header (buffer_at pool i) f.bytes
          ∙ ap (λ g. decode (memcpy (encode g) f.bytes (min (length f.bytes) header_size))) zeros)

pub track_gap-IsWindow :
    (a : Archive) (s : AeronSubscriber) (n : ℕ) → IsWindow s → IsWindow (track_gap a s n)
unfolding seen
track_gap-IsWindow a s n v =
    let e = track_gap-seen a s n in
    record {
      enabled = ap (λ w. w.config.duplicate_check_enabled) e ∙ v.enabled;
      position = subst (λ w. w.position < length w.buffer) (sym e) v.position;
      fits = subst (λ w. length w.buffer < 2 ^ 64) (sym e) v.fits;
    }

add-enabled :
    (s : AeronSubscriber) (n : ℕ)
    → (add_to_deduplication_buffer s n).config.duplicate_check_enabled
      ≡ s.config.duplicate_check_enabled
unfolding add_to_deduplication_buffer
add-enabled s n = if_both _ (λ (t : AeronSubscriber). t.config.duplicate_check_enabled) refl refl

add-refuses :
    (s : AeronSubscriber) (n : ℕ)
    → IsWindow s
    → refuses (seen (add_to_deduplication_buffer s n)) n ≡ true
unfolding record_all
add-refuses s n v =
    let added = add_to_deduplication_buffer s n in
    refuses-seen added n
    ∙ ap (λ b. b && is_duplicate added n) (add-enabled s n ∙ v.enabled)
    ∙ is_duplicate-record_all n [] v (omega (arith, v.position))

-- An accepted message is in the window.
pub track_message-refuses :
    (s : AeronSubscriber) (n : ℕ) → IsWindow s → refuses (seen (track_message s n)) n ≡ true
unfolding track_message
track_message-refuses s n v =
    let expecting = record s { expected_sequence = add64 n 1 } in
    subst (λ t. refuses (seen t) n ≡ true) (sym (if_true expecting v.enabled))
      (add-refuses expecting n
        (record { enabled = v.enabled; position = v.position; fits = v.fits }))

module _ (pool_size queue_size : ℕ) (archive : Archive) where
  -- A message whose number is in the window is not received.
  receive-refused :
      (s : System) (i : ℕ) (f : Fragment)
      → i < length s.pool.buffers
      → (buffer_at s.pool i).header ≡ zeroed
      → refuses (seen s.subscriber) (number_of f) ≡ true
      → (receive pool_size queue_size archive s i f).subscriber.zc_messages_received
        ≡ s.subscriber.zc_messages_received
  unfolding receive tally
  receive-refused s i f h zeros known =
      let n = (buffer_at (fill s.pool i f) i).header.sequence_number in
      let sub = track_gap archive s.subscriber n in
      let found : (sub.config.duplicate_check_enabled && is_duplicate sub n) ≡ true =
        sym (refuses-seen sub n)
        ∙ ap (λ w. refuses w n) (track_gap-seen archive s.subscriber n)
        ∙ ap (refuses (seen s.subscriber)) (filled-number s.pool i f h zeros)
        ∙ known in
      rw found (ap (λ t. t.received) (track_gap-tally archive s.subscriber n))

  pub handle-refused :
      (s : System) (f : Fragment) {held : List ℕ}
      → Owns pool_size s.pool held
      → refuses (seen s.subscriber) (number_of f) ≡ true
      → (handle_message_fast_path pool_size queue_size archive s f).subscriber.zc_messages_received
        ≡ s.subscriber.zc_messages_received
  unfolding handle_message_fast_path receive_in reset
  handle-refused s f {held} v known =
      let from = record s { pool = (allocate s.pool).0 } in
      let same = λ (p : Pointer).
        (receive_in pool_size queue_size archive from p f).subscriber.zc_messages_received
        ≡ s.subscriber.zc_messages_received in
      elim (allocate-Owns pool_size v) [
        | inl k ↦ subst same (sym k.1) refl
        | inr (i, less, given, new, owns, zeros) ↦ subst same (sym given) (
            receive-refused from i f
              (omega (arith, held-lt pool_size [] held i owns.shared, owns.buffers_length))
              (ap (λ b. b.header) zeros) known)
      ]
