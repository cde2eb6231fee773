-- ===== src/TestMessagePublisher.antt =====
-- test_message_publisher.cpp: a publisher for trials, which stops after a number of messages.
pub mod Counting
use aeron_archive_replay.Base.{
  ℕ, Bool, Option, none, some, List, [], ◌∷◌, take, not, if◌then◌else◌, slt, add64, Text, atoi,
}
use aeron_archive_replay.AeronPublisher.{wait_for_publication}
use aeron_archive_replay.AeronPublisher.Message.{message_header, message_bytes}
use aeron_archive_replay.AeronPublisher.Running.{Tick}

-- The variables of the loop, and what Aeron has taken, the newest first. `sent_count` is an `int` in
-- the source and has 64 bits here, where it is compared with the count: the same while it is below
-- 2 ^ 31.
pub record TestPublisher : Type 0 where
  pub sequence_number : ℕ
  pub sent_count : ℕ
  pub sent : List (List ℕ)

abbrev pub begin : TestPublisher
begin = record { sequence_number = 0; sent_count = 0; sent = [] }

-- One turn. What Aeron does not take is not offered again.
unfoldable pub publish_next : TestPublisher → Tick → TestPublisher
publish_next p t =
    let length = (message_header p.sequence_number t.event_time t.publish_time).message_length in
    let message = take length (message_bytes p.sequence_number t.event_time t.publish_time) in
    let counted = record p { sequence_number = add64 p.sequence_number 1 } in
    if slt 0 (t.offer message)
    then record counted { sent_count = add64 p.sent_count 1; sent = message ∷ p.sent }
    else counted

-- The loop, until the count is reached or a signal comes, where the turns end.
unfoldable pub publish_all : (message_count : ℕ) → TestPublisher → List Tick → TestPublisher
unfolding publish_next
publish_all message_count p [] = p
publish_all message_count p (t ∷ ticks) =
    let rest = publish_all message_count (publish_next p t) ticks in
    if slt p.sent_count message_count then rest else p

-- The second argument of the command line.
unfoldable pub message_count_of : Option Text → ℕ
unfolding atoi
message_count_of none = 100
message_count_of (some text) = atoi text

-- The exit code and the loop's variables; `none` where the publication is still waited for. The
-- arguments say whether Aeron connects and adds the publication, and when it is found.
unfoldable pub run :
    (connects : Bool)
    → (found : List Bool) → (count_argument : Option Text) → List Tick
    → Option (ℕ × TestPublisher)
unfolding publish_all message_count_of wait_for_publication
run connects found count_argument ticks =
    if not connects
    then some (1, begin)
    else if wait_for_publication found
    then some (0, publish_all (message_count_of count_argument) begin ticks)
    else none
