-- ===== src/AeronSubscriber/Tracking.antt =====
-- Gaps and duplicates: `checkForGaps`, `isDuplicate`, `addToDecluplicationBuffer` and
-- `triggerImmediateGapRecovery`. Sequence numbers are an `int64_t`.
use aeron_archive_replay.Base.{
  ℕ, ◌%◌, Bool, true, false, not, ◌||◌, List, [], ◌∷◌, length, set, add64, sub64, slt, ◌==◌,
  if◌then◌else◌,
}
use aeron_archive_replay.AeronSubscriber.{AeronSubscriber}
use aeron_archive_replay.AeronSubscriber.Recording.{Archive, channel_of, find_latest_recording}

unfoldable pub check_for_gaps : AeronSubscriber → ℕ → Bool × AeronSubscriber
check_for_gaps s message_number =
    if s.expected_sequence == 0
    then (false, record s { expected_sequence = add64 message_number 1 })
    else if slt message_number s.expected_sequence
    then (false, s)
    else if slt s.expected_sequence message_number
    then (let gap_size = sub64 message_number s.expected_sequence in
        (not (slt s.config.max_gap_tolerance gap_size), s))
    else (false, s)

unfoldable pub contains : List ℕ → ℕ → Bool
contains [] n = false
contains (x ∷ xs) n = x == n || contains xs n

unfoldable pub is_duplicate : AeronSubscriber → ℕ → Bool
unfolding contains
is_duplicate s message_number =
    if not s.config.duplicate_check_enabled || length s.duplicate_buffer == 0
    then false
    else contains s.duplicate_buffer message_number

unfoldable pub add_to_deduplication_buffer : AeronSubscriber → ℕ → AeronSubscriber
add_to_deduplication_buffer s message_number =
    if not s.config.duplicate_check_enabled || length s.duplicate_buffer == 0 then s else record s {
      duplicate_buffer = set s.duplicate_buffer s.duplicate_buffer_pos message_number;
      duplicate_buffer_pos = add64 s.duplicate_buffer_pos 1 % length s.duplicate_buffer;
    }

unfoldable pub trigger_immediate_gap_recovery :
    Archive → AeronSubscriber → (gap_start gap_end : ℕ) → Bool × AeronSubscriber
unfolding channel_of find_latest_recording
trigger_immediate_gap_recovery a s gap_start gap_end =
    let recording_id =
      find_latest_recording a (channel_of s.config.subscription_channel)
        s.config.subscription_stream_id in
    if not s.archive then (false, s) else if not (slt 0 recording_id) then (false, s) else (
      true,
      record s { gaps_recovered = add64 s.gaps_recovered (add64 (sub64 gap_end gap_start) 1) },
    )
