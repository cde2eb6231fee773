-- ===== src/AeronPublisher/Running.antt =====
-- `run`: the loop of the publishing thread and the loop of the commands, as one sequence of their
-- turns.
use aeron_archive_replay.Base.{
  ℕ, Bool, false, not, List, [], ◌∷◌, take, if◌then◌else◌, add64, Text, text_of, same_text,
}
use aeron_archive_replay.RecordingController.{Answers}
use aeron_archive_replay.AeronPublisher.{AeronPublisher, publish, start_recording, stop_recording}
use aeron_archive_replay.AeronPublisher.Message.{message_header, message_bytes}

-- The publisher, the counter of the publishing thread, and what Aeron has taken, the newest first.
pub record Run : Type 0 where
  pub publisher : AeronPublisher
  pub sequence_number : ℕ
  pub sent : List (List ℕ)

-- One turn of the publishing thread, with what it gets from the clock and from Aeron.
pub record Tick : Type 0 where
  pub event_time : ℕ
  pub publish_time : ℕ
  pub offer : List ℕ → ℕ

-- After `publish` has answered: the counter moves on whether or not the message is taken.
unfoldable pub after_publish : Run → List ℕ → Bool × AeronPublisher → Run
after_publish r message (taken, publisher) = record {
  publisher = publisher;
  sequence_number = add64 r.sequence_number 1;
  sent = if taken then message ∷ r.sent else r.sent;
}

unfoldable pub publish_turn : Run → Tick → Run
unfolding publish after_publish
publish_turn r t =
    let length = (message_header r.sequence_number t.event_time t.publish_time).message_length in
    let buffer = message_bytes r.sequence_number t.event_time t.publish_time in
    if r.publisher.running
    then after_publish r (take length buffer) (publish r.publisher t.offer buffer length)
    else r

-- A command, with the archive's answers.
pub record Command : Type 0 where
  pub word : Text
  pub answers : Answers
  pub stops : ℕ → Bool

unfoldable pub command_turn : Run → Command → Run
unfolding start_recording stop_recording
command_turn r c =
    if not r.publisher.running
    then r
    else if same_text c.word (text_of "start")
    then record r { publisher = (start_recording r.publisher c.answers).1 }
    else if same_text c.word (text_of "stop")
    then record r { publisher = (stop_recording r.publisher c.stops).1 }
    else if same_text c.word (text_of "quit")
    then record r { publisher = record r.publisher { running = false } }
    else r

pub data Turn : Type 0 where
  publishing : Tick → Turn
  commanding : Command → Turn

unfoldable pub turn : Run → Turn → Run
unfolding publish_turn command_turn
turn r (publishing t) = publish_turn r t
turn r (commanding c) = command_turn r c

unfoldable pub run : Run → List Turn → Run
unfolding turn
run r [] = r
run r (t ∷ turns) = run (turn r t) turns

abbrev pub begin : AeronPublisher → Run
begin s = record { publisher = s; sequence_number = 0; sent = [] }
