-- ===== src/AeronSubscriber/Recording.antt =====
-- The subscriber's calls of Aeron and of the archive client; the answers of both are arguments.
use aeron_archive_replay.Base.{
  ℕ, Bool, true, false, not, List, [], ◌∷◌, Option, none, some, minus_one, slt, ◌==◌, if◌then◌else◌,
  Text, text_of,
}
use aeron_archive_replay.AeronSubscriber.{AeronSubscriber}

abbrev pub default_channel : Text
default_channel = text_of "aeron:udp?endpoint=224.0.1.1:40456|interface=0.0.0.0"

-- The configured channel, or that of `AeronConfig` where none is.
unfoldable pub channel_of : Text → Text
channel_of [] = default_channel
channel_of channel = channel

-- The archive client: `findLastMatchingRecording` from the least recording, the channel, the stream
-- and the session, and `getRecordingPosition`. Each answers an `int64_t` or throws (`none`).
pub record Archive : Type 0 where
  pub find_last_matching_recording : ℕ → Text → ℕ → ℕ → Option ℕ
  pub get_recording_position : ℕ → Option ℕ

-- `aeron::NULL_VALUE` is -1.
abbrev pub null_value : ℕ
null_value = minus_one

unfoldable pub find_latest_recording : Archive → Text → ℕ → ℕ
find_latest_recording a channel stream_id =
    elim (a.find_last_matching_recording 0 channel stream_id minus_one) [
      | none ↦ minus_one
      | some recording_id ↦ if recording_id == null_value then minus_one else recording_id
    ]

unfoldable pub get_recording_start_position : ℕ → ℕ
get_recording_start_position recording_id = 0

unfoldable pub get_recording_stop_position : Archive → ℕ → ℕ
get_recording_stop_position a recording_id = elim (a.get_recording_position recording_id) [
  | none ↦ minus_one
  | some position ↦ position
]

-- The wait for a subscription, on the answers of `findSubscription` in turn: `false` where the answers
-- end before it is there.
unfoldable pub wait_for_subscription : List Bool → Bool
wait_for_subscription [] = false
wait_for_subscription (true ∷ answers) = true
wait_for_subscription (false ∷ answers) = wait_for_subscription answers

-- `none` where it still waits. `addSubscription` and `findSubscription` may also throw; nothing here
-- catches that, it ends the program and is not modelled.
unfoldable pub start_live : AeronSubscriber → List Bool → Option (Bool × AeronSubscriber)
unfolding wait_for_subscription
start_live s answers =
    if wait_for_subscription answers then some (true, record s { subscription = true }) else none

-- What Aeron does for `startReplayMerge`: whether it adds the subscription, when it finds it, and
-- whether it builds the `ReplayMerge`; it throws where it does not.
pub record MergeAnswers : Type 0 where
  pub adds : Bool
  pub found : List Bool
  pub builds : Bool

unfoldable pub start_replay_merge :
    AeronSubscriber
    → MergeAnswers
    → (recording_id start_position : ℕ) → Option (Bool × AeronSubscriber)
unfolding wait_for_subscription
start_replay_merge s m recording_id start_position =
    if not m.adds
    then some (false, s)
    else if not (wait_for_subscription m.found)
    then none
    else if not m.builds
    then some (false, record s { subscription = true })
    else some (true, record s { subscription = true; replay_merge = true })

-- The position of the recording is only printed.
unfoldable pub start_replay_merge_auto :
    Archive
    → AeronSubscriber
    → MergeAnswers
    → (start_position : ℕ) → Option (Bool × AeronSubscriber)
unfolding channel_of find_latest_recording start_replay_merge
start_replay_merge_auto a s m start_position =
    let recording_id =
      find_latest_recording a (channel_of s.config.subscription_channel)
        s.config.subscription_stream_id in
    if slt recording_id 0
    then some (false, s)
    else start_replay_merge s m recording_id start_position
