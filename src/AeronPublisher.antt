-- ===== src/AeronPublisher.antt =====
-- `AeronPublisher` of publisher/include/AeronPublisher.h and publisher/src/AeronPublisher.cpp, and the
-- program of publisher/src/main.cpp. Printing is left out, but what it depends on is not.
pub mod Message
pub mod Running
pub mod Stream
pub mod Skipped
pub mod Delivery
pub mod Legacy
pub mod Sending
use aeron_archive_replay.Base.{
  ℕ, Bool, true, false, not, ◌&&◌, ◌||◌, Option, none, some, List, [], ◌∷◌, take, ltb,
  if◌then◌else◌, slt, add64, Text, text_of,
}
use aeron_archive_replay.RecordingController.{RecordingController, Answers}
use aeron_archive_replay.RecordingController

pub record PublisherConfig : Type 0 where
  pub aeron_dir : Text
  pub publication_channel : Text
  pub publication_stream_id : ℕ
  pub archive_control_request_channel : Text
  pub archive_control_response_channel : Text
  pub message_interval_ms : ℕ
  pub auto_record : Bool

abbrev pub default_config : PublisherConfig
default_config = record {
  aeron_dir = text_of "/dev/shm/aeron";
  publication_channel = text_of "aeron:udp?endpoint=localhost:40456";
  publication_stream_id = 10;
  archive_control_request_channel = text_of "aeron:udp?endpoint=localhost:8010";
  archive_control_response_channel = text_of "aeron:udp?endpoint=localhost:0";
  message_interval_ms = 100;
  auto_record = false;
}

-- Of an object of Aeron behind a pointer the state keeps whether the pointer is set.
pub record AeronPublisher : Type 0 where
  pub config : PublisherConfig
  pub aeron : Bool
  pub publication : Bool
  pub archive : Bool
  pub recording_controller : Option RecordingController
  pub running : Bool
  pub message_count : ℕ

unfoldable pub new : PublisherConfig → AeronPublisher
new config = record {
  config = config;
  aeron = false;
  publication = false;
  archive = false;
  recording_controller = none;
  running = false;
  message_count = 0;
}

-- The controller does the work, and keeps its new state.
unfoldable pub with_controller :
    AeronPublisher → (RecordingController → Bool × RecordingController) → Bool × AeronPublisher
with_controller s f = elim s.recording_controller [
  | none ↦ (false, s)
  | some c ↦ let (done, d) = f c in (done, record s { recording_controller = some d })
]

unfoldable pub start_recording : AeronPublisher → Answers → Bool × AeronPublisher
unfolding with_controller
start_recording s a = with_controller s (λ c. RecordingController.start_recording c a)

unfoldable pub stop_recording : AeronPublisher → (stops : ℕ → Bool) → Bool × AeronPublisher
unfolding with_controller
stop_recording s stops = with_controller s (λ c. RecordingController.stop_recording c stops)

unfoldable pub is_recording : AeronPublisher → Bool
is_recording s = elim s.recording_controller [
  | none ↦ false
  | some c ↦ RecordingController.is_recording c
]

-- What Aeron and the archive do for `initialize`: whether the client connects and adds the
-- publication, when the publication is found, whether the archive connects, and its answers to a recording.
-- Each throws where it does not.
pub record InitializeAnswers : Type 0 where
  pub connects : Bool
  pub adds : Bool
  pub found : List Bool
  pub archive_connects : Bool
  pub recording : Answers

-- The wait for the publication: `false` where the answers end before it is there.
unfoldable pub wait_for_publication : List Bool → Bool
wait_for_publication [] = false
wait_for_publication (true ∷ answers) = true
wait_for_publication (false ∷ answers) = wait_for_publication answers

-- `none` where it still waits. With `auto_record` the result of the recording is only printed.
unfoldable pub initialize : AeronPublisher → InitializeAnswers → Option (Bool × AeronPublisher)
unfolding wait_for_publication start_recording
initialize s i =
    let published = record s { aeron = true; publication = true } in
    let started = record published {
      archive = true;
      recording_controller =
          some
            (RecordingController.new s.config.publication_channel s.config.publication_stream_id);
      running = true;
    } in
    if not i.connects
    then some (false, s)
    else if not i.adds
    then some (false, record s { aeron = true })
    else if not (wait_for_publication i.found)
    then none
    else if not i.archive_connects
    then some (false, published)
    else if s.config.auto_record
    then some (true, (start_recording started i.recording).1)
    else some (true, started)

-- `offer` answers the bytes that it is given with a stream position, or with a number that is not
-- positive.
unfoldable pub publish :
    AeronPublisher → (offer : List ℕ → ℕ) → (buffer : List ℕ) → (length : ℕ) → Bool × AeronPublisher
publish s offer buffer length =
    if not s.running || not s.publication
    then (false, s)
    else if slt 0 (offer (take length buffer))
    then (true, record s { message_count = add64 s.message_count 1 })
    else (false, s)

-- The controller's destructor asks once more where the stop failed; nothing is left of its answer.
unfoldable pub shutdown : AeronPublisher → (stops : ℕ → Bool) → AeronPublisher
unfolding is_recording stop_recording
shutdown s stops =
    let halted = record s { running = false } in
    let stopped = if is_recording halted then (stop_recording halted stops).1 else halted in
    record stopped {
      recording_controller = none;
      publication = false;
      archive = false;
      aeron = false;
    }
