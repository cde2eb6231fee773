-- ===== src/Tests/Tracking.antt =====
-- Gaps and duplicates on a window of three numbers.
use mathlib.Core.List.{Memᴰ}
use aeron_archive_replay.Base.{ℕ, ◌≡◌, ◌⊎◌, refl, true, false, [], ◌∷◌, minus_one, arith}
use aeron_archive_replay.AeronSubscriber.{AeronSubscriber, default_config, new}
use aeron_archive_replay.AeronSubscriber.Tracking.{
  contains, check_for_gaps, is_duplicate, add_to_deduplication_buffer,
}
use aeron_archive_replay.AeronSubscriber.FastPath.{track_message}
use aeron_archive_replay.AeronSubscriber.Window.{
  IsWindow, record_all, is_duplicate-record_all, record_all-is_duplicate,
}
use aeron_archive_replay.AeronSubscriber.Gaps.{check_for_gaps-track_message}

abbrev subscriber : AeronSubscriber
subscriber = record (new (record default_config { duplicate_window_size = 3 })) {
  duplicate_buffer = 8 ∷ 9 ∷ minus_one ∷ [];
  duplicate_buffer_pos = 2;
  expected_sequence = 10;
}

subscriber-IsWindow : IsWindow subscriber
unfolding new
subscriber-IsWindow = record { enabled = refl; position = omega arith; fits = omega arith }

is_duplicate-record_all_example : is_duplicate (record_all subscriber (10 ∷ 11 ∷ 12 ∷ [])) 10 ≡ true
is_duplicate-record_all_example =
    is_duplicate-record_all 10 (11 ∷ 12 ∷ []) subscriber-IsWindow (omega arith)

-- The third number after it drives a number out of the window.
window_ends : is_duplicate (record_all subscriber (10 ∷ 11 ∷ 12 ∷ 13 ∷ [])) 10 ≡ false
unfolding is_duplicate record_all add_to_deduplication_buffer contains new
window_ends = refl

eleven_found : is_duplicate (record_all subscriber (10 ∷ 11 ∷ [])) 11 ≡ true
unfolding is_duplicate record_all add_to_deduplication_buffer contains new
eleven_found = refl

record_all-is_duplicate_example :
    Memᴰ {A = ℕ} 11 (10 ∷ 11 ∷ []) ⊎ (is_duplicate subscriber 11 ≡ true)
record_all-is_duplicate_example =
    record_all-is_duplicate (10 ∷ 11 ∷ []) 11 subscriber-IsWindow eleven_found

check_for_gaps-track_message_example : (check_for_gaps (track_message subscriber 6) 10).0 ≡ true
unfolding new
check_for_gaps-track_message_example =
    check_for_gaps-track_message subscriber 6 (omega arith) (omega arith) (omega arith)
      (omega arith)
