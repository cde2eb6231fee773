-- ===== src/ReplayToLiveHandler.antt =====
-- deprecated/ReplayToLiveHandler.h and deprecated/ReplayToLiveHandler.cpp, which nothing builds any
-- more. The answers of Aeron and of the archive are arguments.
pub mod Following
use aeron_archive_replay.Base.{
  ℕ, ◌-◌, ◌^◌, Bool, true, false, not, ◌&&◌, ◌||◌, Option, none, some, List, [], ◌∷◌, length, ◌==◌,
  if◌then◌else◌, minus_one, sub64,
}
use aeron_archive_replay.AeronSubscriber.Recording.{wait_for_subscription}

pub data SubscriptionMode : Type 0 where
  replay : SubscriptionMode
  transitioning : SubscriptionMode
  live : SubscriptionMode

abbrev pub is_replay : SubscriptionMode → Bool
is_replay replay = true
is_replay _ = false

abbrev pub is_live : SubscriptionMode → Bool
is_live live = true
is_live _ = false

-- Of a subscription the state keeps whether its pointer is set.
pub record ReplayToLiveHandler : Type 0 where
  pub replay_subscription : Bool
  pub live_subscription : Bool
  pub mode : SubscriptionMode
  pub replay_session_id : ℕ
  pub last_replay_position : ℕ
  pub live_start_position : ℕ

abbrev pub new : ReplayToLiveHandler
new = record {
  replay_subscription = false;
  live_subscription = false;
  mode = live;
  replay_session_id = minus_one;
  last_replay_position = 0;
  live_start_position = 0;
}

-- Of a recording's descriptor, what the callback reads.
pub record Descriptor : Type 0 where
  pub recording_id : ℕ
  pub stop_position : ℕ
  pub stream_id : ℕ

-- `recordingDescriptorConsumer` over a listing: the last recording of the stream, and where it stops.
unfoldable pub find_recording : (stream_id : ℕ) → List Descriptor → ℕ × ℕ → ℕ × ℕ
find_recording stream_id [] found = found
find_recording stream_id (d ∷ ds) found =
    find_recording stream_id ds
      (if d.stream_id == stream_id then (d.recording_id, d.stop_position) else found)

-- The answers to `startReplay`; a call throws where it says false or `none`. `NULL_POSITION` is -1.
pub record ReplayAnswers : Type 0 where
  pub descriptors : List Descriptor
  pub lists : Bool
  pub adds_replay : Bool
  pub found_replay : List Bool
  pub starts : (recording_id start_position length : ℕ) → Option ℕ
  pub adds_live : Bool
  pub found_live : List Bool

unfoldable pub replay_length : (stop_position start_position : ℕ) → ℕ
replay_length stop_position start_position =
    if stop_position == 0 || stop_position == minus_one
    then 2 ^ 63 - 1
    else sub64 stop_position start_position

-- After the replay has started: the live subscription.
unfoldable pub pre_create_live :
    ReplayToLiveHandler → ReplayAnswers → (stop_position : ℕ) → Option (Bool × ReplayToLiveHandler)
unfolding wait_for_subscription
pre_create_live h a stop_position =
    if not a.adds_live
    then some (false, h)
    else if wait_for_subscription a.found_live
    then some (true, record h { live_subscription = true; live_start_position = stop_position })
    else none

unfoldable pub with_session :
    ReplayToLiveHandler
    → ReplayAnswers
    → (start_position stop_position : ℕ) → Option ℕ
    → Option (Bool × ReplayToLiveHandler)
unfolding pre_create_live
with_session h a start_position stop_position none = some (false, h)
with_session h a start_position stop_position (some id) =
    pre_create_live (record h { replay_session_id = id; last_replay_position = start_position }) a
      stop_position

-- `none` where it still waits.
unfoldable pub start_replay :
    ReplayToLiveHandler
    → (stream_id start_position : ℕ) → ReplayAnswers
    → Option (Bool × ReplayToLiveHandler)
unfolding find_recording replay_length with_session
start_replay h stream_id start_position a =
    let replaying = record h { mode = replay } in
    let (recording_id, stop_position) =
      find_recording stream_id a.descriptors (minus_one, minus_one) in
    if not a.lists || recording_id == minus_one || not a.adds_replay
    then some (false, replaying)
    else if wait_for_subscription a.found_replay
    then with_session (record replaying { replay_subscription = true }) a start_position
        stop_position
        (a.starts recording_id start_position (replay_length stop_position start_position))
    else none

unfoldable pub start_live :
    ReplayToLiveHandler → (adds : Bool) → (found : List Bool) → Option (Bool × ReplayToLiveHandler)
start_live h adds found =
    if not adds
    then some (false, record h { mode = live })
    else if wait_for_subscription found
    then some (true, record h { mode = live; live_subscription = true })
    else none

-- The two counts of the images are the answers before and after the wait. Nobody else sees the mode
-- `transitioning` in one thread.
unfoldable pub check_transition_to_live :
    ReplayToLiveHandler → (images images_later : ℕ) → Bool × ReplayToLiveHandler
check_transition_to_live h images images_later =
    if not (is_replay h.mode)
    then (false, h)
    else if h.replay_subscription && images == 0
    then (if images_later == 0
        then (true, record h { mode = live; replay_subscription = false })
        else (false, h))
    else (false, h)

pub record Fragment : Type 0 where
  pub bytes : List ℕ
  pub position : ℕ

-- What one poll meets: the fragments of the subscription that is polled, and the counts of images.
pub record Polled : Type 0 where
  pub fragments : List Fragment
  pub images : ℕ
  pub images_later : ℕ

-- The handler gets the fragments of the replay in turn.
unfoldable pub last_position : ℕ → List Fragment → ℕ
last_position position [] = position
last_position position (f ∷ fragments) = last_position f.position fragments

-- What the handler of the messages gets, the number of fragments, and the state.
unfoldable pub poll : ReplayToLiveHandler → Polled → List Fragment × ℕ × ReplayToLiveHandler
unfolding last_position check_transition_to_live
poll h p =
    let moved = record h {
      last_replay_position = last_position h.last_replay_position p.fragments;
    } in
    let checked = (check_transition_to_live moved p.images p.images_later).1 in
    let read = length p.fragments in
    if is_replay h.mode && h.replay_subscription
    then (p.fragments, read, if read == 0 then checked else moved)
    else if is_live h.mode && h.live_subscription
    then (p.fragments, read, h)
    else ([], 0, h)

unfoldable pub shutdown : ReplayToLiveHandler → ReplayToLiveHandler
shutdown h = record h { replay_subscription = false; live_subscription = false }
