-- ===== src/Tests/Publishing.antt =====
-- The publisher, its recordings and its messages.
use mathlib.Core.List.{Memᴰ}
use mathlib.Core.List.Memᴰ
use aeron_archive_replay.Base.{
  ℕ, ◌+◌, ◌-◌, ◌==◌, ◌≡◌, ◌↔◌, ◌<◌, ◌≤◌, refl, ap, inl, inr, true, false, List, [], ◌∷◌, take, map,
  length, minus_one, if◌then◌else◌, text_of, decimal, decimal_within, arith,
}
use aeron_archive_replay.MessageBuffer.{blank, copy_from_aeron, validate}
use aeron_archive_replay.AeronSubscriber as Sub
use aeron_archive_replay.AeronSubscriber.{AeronSubscriber, default_config}
use aeron_archive_replay.AeronSubscriber.Tracking.{check_for_gaps}
use aeron_archive_replay.RecordingController as Controller
use aeron_archive_replay.RecordingController.{
  RecordingController, Descriptor, Listing, Answers, subscribed, is_recording,
  check_existing_recording, recording_descriptor_consumer, each, find_recording_id, begin_recording,
  start_recording, stop_recording,
}
use aeron_archive_replay.RecordingController.Starting.{HaveIds, IsStart, start_recording-IsStart}
use aeron_archive_replay.RecordingController.Stopping.{stop_recording-start_recording}
use aeron_archive_replay.AeronPublisher as Publisher
use aeron_archive_replay.AeronPublisher.{AeronPublisher}
use aeron_archive_replay.AeronPublisher.Message.{
  test_payload, message_payload, message_header, message_bytes,
}
use aeron_archive_replay.AeronPublisher.Sending.{copy_from_aeron-message_bytes}
use aeron_archive_replay.AeronPublisher.Running.{Run, Tick, Turn, publishing, run, begin}
use aeron_archive_replay.AeronPublisher.Stream.{IsStream, IsRunning, empty, run-IsRunning}
use aeron_archive_replay.AeronSubscriber.Tracking.{is_duplicate}
use aeron_archive_replay.AeronSubscriber.Window.{record_all}
use aeron_archive_replay.AeronPublisher.Delivery.{AreSent, number_of, is_duplicate-run}
use aeron_archive_replay.TestMessagePublisher as Trial
use aeron_archive_replay.TestMessagePublisher.{publish_all}
use aeron_archive_replay.TestMessagePublisher.Counting.{
  Takes, no_more, taken, either, publish_all-Takes,
}
use aeron_archive_replay.AeronPublisher.Skipped.{check_for_gaps-run}

payload_of_7 : message_payload 7 ≡ text_of "Test message 7 from Publisher"
unfolding message_payload test_payload decimal decimal_within
payload_of_7 = refl

copy_from_aeron-message_bytes_example :
    let c = copy_from_aeron blank (message_bytes 7 10 20) in
    (c.header ≡ message_header 7 10 20)
    × (take c.actual_payload_length c.payload ≡ message_payload 7)
    × (validate c ≡ true)
copy_from_aeron-message_bytes_example =
    copy_from_aeron-message_bytes 7 10 20 (omega arith) (omega arith) (omega arith) blank

-- A publisher that runs, and one turn that Aeron takes and one that it does not.
abbrev publisher : AeronPublisher
publisher = record (Publisher.new Publisher.default_config) {
  aeron = true;
  publication = true;
  archive = true;
  running = true;
}

abbrev tick_of : ℕ → Tick
tick_of result = record { event_time = 10; publish_time = 20; offer = λ bytes. result }

abbrev turns : List Turn
turns =
    publishing (tick_of 96) ∷ publishing (tick_of (minus_one - 1)) ∷ publishing (tick_of 192) ∷ []

begin-IsRunning : IsRunning 0 (begin publisher)
unfolding Publisher.new
begin-IsRunning = record {
  stream = empty;
  message_count = refl;
  used = omega arith;
  taken = omega arith;
}

all_sent_of : (ms more : List (List ℕ)) → ((m : List ℕ) → Memᴰ m ms → Memᴰ m more) → AreSent ms more
all_sent_of [] more into = tt
all_sent_of (m ∷ ms) more into =
    (into m (Memᴰ.head refl), all_sent_of ms more (λ k later. into k (Memᴰ.tail later)))

all_sent : AreSent (run (begin publisher) turns).sent (run (begin publisher) turns).sent
all_sent = all_sent_of _ _ (λ m k. k)

is_duplicate-run_example :
    let q = run (begin publisher) turns in
    is_duplicate
      (record_all (Sub.new default_config) (map (number_of blank) q.sent))
      (number_of blank (message_bytes q.sequence_number 30 40))
    ≡ false
is_duplicate-run_example =
    is_duplicate-run default_config refl (omega arith) (omega arith) blank turns (begin publisher)
      (run (begin publisher) turns).sent 30 40 begin-IsRunning (omega arith) (omega arith) all_sent
      (omega arith) (omega arith)

run-IsRunning_example : IsRunning (0 + 3) (run (begin publisher) turns)
run-IsRunning_example =
    run-IsRunning turns (begin publisher) begin-IsRunning (omega arith) (omega arith)

-- Two messages for a count of two, with one that is not taken between them.
two_taken : Takes 2 (tick_of 96 ∷ tick_of minus_one ∷ tick_of 192 ∷ [])
two_taken =
    taken (tick_of 96) (omega arith) (omega arith) (λ bytes. refl)
      (either (tick_of minus_one) (omega arith) (omega arith)
        (taken (tick_of 192) (omega arith) (omega arith) (λ bytes. refl) no_more))

publish_all-Takes_example :
    let q = publish_all 2 Trial.begin (tick_of 96 ∷ tick_of minus_one ∷ tick_of 192 ∷ []) in
    (q.sent_count ≡ 2) × (length q.sent ≡ 2) × IsStream q.sequence_number q.sent
publish_all-Takes_example = publish_all-Takes 2 two_taken (omega arith) (omega arith) (omega arith)

-- Five messages are sent, and the subscriber expects the sixth.
abbrev five_sent : Run
five_sent = record (begin publisher) { sequence_number = 5 }

abbrev expecting : AeronSubscriber
expecting = record (Sub.new default_config) { expected_sequence = 5 }

abbrev refusals : List Tick
refusals = tick_of (minus_one - 1) ∷ tick_of minus_one ∷ []

check_for_gaps-run_example :
    let q = run five_sent (map publishing refusals) in
    (q.sent ≡ [])
    × (((check_for_gaps expecting q.sequence_number).0 ≡ true)
        ↔ ((0 < length refusals) × (length refusals ≤ 5)))
unfolding Publisher.new Sub.new
check_for_gaps-run_example =
    check_for_gaps-run expecting five_sent refusals refl (λ bytes. refl, (λ bytes. refl, tt))
      (omega arith) (omega arith) refl (omega arith)

-- The recording 4 has stopped. The archive gives the subscription 77, and the recording 5 is then
-- there.
abbrev controller : RecordingController
controller = Controller.new (text_of "aeron:ipc") 10

abbrev nothing_listed : Listing
nothing_listed = record { descriptors = []; throws = false }

abbrev recording_5 : Descriptor
recording_5 = record { recording_id = 5; stop_timestamp = 0; session_id = 3; stream_id = 10 }

abbrev recording_4 : Descriptor
recording_4 = record { recording_id = 4; stop_timestamp = 9; session_id = 2; stream_id = 10 }

abbrev answers : Answers
answers = record {
  existing = record { descriptors = recording_4 ∷ []; throws = false };
  started = subscribed 77;
  listed = record { descriptors = recording_5 ∷ []; throws = false };
  listed_again = nothing_listed;
}

starts : (start_recording controller answers).0 ≡ true
unfolding start_recording begin_recording find_recording_id each recording_descriptor_consumer
    check_existing_recording is_recording Controller.new
starts = refl

not_recording : is_recording controller ≡ false
unfolding is_recording Controller.new
not_recording = refl

have_ids : HaveIds answers.existing.descriptors
have_ids d m = elim (Memᴰ.cases_cons m) [
  | inl e ↦ ap (λ (d : Descriptor). d.recording_id == minus_one) e
  | inr later ↦ absurd (Memᴰ.not-nil later)
]

start_recording-IsStart_example :
    (is_recording controller ≡ false)
    × IsStart controller answers (start_recording controller answers).1
start_recording-IsStart_example = start_recording-IsStart controller answers have_ids starts

stop_recording-start_recording_example :
    stop_recording (start_recording controller answers).1 (λ id. id == 77) ≡ (
      if 77 == 77
      then (true, record controller { recording_id = minus_one; subscription_id = minus_one })
      else (false, (start_recording controller answers).1))
unfolding Controller.new
stop_recording-start_recording_example =
    stop_recording-start_recording controller answers 77 not_recording (refl, tt) refl refl
      (λ id. id == 77) starts
