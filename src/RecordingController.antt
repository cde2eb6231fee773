-- ===== src/RecordingController.antt =====
-- publisher/include/RecordingController.h and publisher/src/RecordingController.cpp. The archive
-- client's answers are arguments. An identifier is the 64-bit pattern of an `int64_t`, and so are the
-- 32-bit numbers that are kept as one.
pub mod Lifecycle
pub mod Starting
pub mod Stopping
use aeron_archive_replay.Base.{
  ℕ, Bool, true, false, not, ◌&&◌, Option, none, some, List, [], ◌∷◌, ◌==◌, if◌then◌else◌,
  minus_one, Text, text_of, find,
}

pub record RecordingController : Type 0 where
  pub channel : Text
  pub stream_id : ℕ
  pub recording_id : ℕ
  pub subscription_id : ℕ

unfoldable pub new : Text → ℕ → RecordingController
new channel stream_id = record {
  channel = channel;
  stream_id = stream_id;
  recording_id = minus_one;
  subscription_id = minus_one;
}

unfoldable pub is_recording : RecordingController → Bool
is_recording c = not (c.recording_id == minus_one)

unfoldable pub get_recording_id : RecordingController → ℕ
get_recording_id c = c.recording_id

-- Of a recording's descriptor, what the callbacks read.
pub record Descriptor : Type 0 where
  pub recording_id : ℕ
  pub stop_timestamp : ℕ
  pub session_id : ℕ
  pub stream_id : ℕ

-- One call of `listRecordingsForUri`: the descriptors that the callback gets, and whether the call
-- throws after them.
pub record Listing : Type 0 where
  pub descriptors : List Descriptor
  pub throws : Bool

-- `startRecording` of the archive client: a subscription's identifier, or the message that it throws.
pub data Started : Type 0 where
  subscribed : (subscription_id : ℕ) → Started
  refused : (message : Text) → Started

-- The answers to the calls of one `startRecording`: the first listing, the start, and the two
-- listings after it.
pub record Answers : Type 0 where
  pub existing : Listing
  pub started : Started
  pub listed : Listing
  pub listed_again : Listing

-- `checkExistingRecording`
unfoldable pub check_existing_recording : Descriptor → RecordingController → RecordingController
check_existing_recording d c =
    if d.stream_id == c.stream_id && d.stop_timestamp == 0
    then record c { recording_id = d.recording_id; subscription_id = d.session_id }
    else c

-- `findAnyRecording`
unfoldable pub find_any_recording : Descriptor → RecordingController → RecordingController
find_any_recording d c =
    if d.stream_id == c.stream_id then record c { recording_id = d.recording_id } else c

-- `recordingDescriptorConsumer`
unfoldable pub recording_descriptor_consumer :
    Descriptor → RecordingController → RecordingController
recording_descriptor_consumer d c =
    if d.stream_id == c.stream_id && d.stop_timestamp == 0
    then record c { recording_id = d.recording_id }
    else c

unfoldable pub each :
    (Descriptor → RecordingController → RecordingController)
    → List Descriptor
    → RecordingController
    → RecordingController
each callback [] c = c
each callback (d ∷ ds) c = each callback ds (callback d c)

-- After the archive has started a recording: its identifier is looked for twice.
unfoldable pub find_recording_id : RecordingController → Answers → Bool × RecordingController
unfolding recording_descriptor_consumer each is_recording
find_recording_id c a =
    let first = each recording_descriptor_consumer a.listed.descriptors c in
    let second = each recording_descriptor_consumer a.listed_again.descriptors first in
    if a.listed.throws
    then (false, first)
    else if is_recording first
    then (true, first)
    else if a.listed_again.throws
    then (false, second)
    else (is_recording second, second)

-- After it refused with "recording exists": any recording of the stream will do.
unfoldable pub use_existing : RecordingController → Answers → Bool × RecordingController
unfolding find_any_recording each is_recording
use_existing c a =
    let found = each find_any_recording a.listed.descriptors c in
    if a.listed.throws then (false, found) else (is_recording found, found)

unfoldable pub if_exists : Option ℕ → RecordingController → Answers → Bool × RecordingController
unfolding use_existing
if_exists none c a = (false, c)
if_exists (some position) c a = use_existing c a

unfoldable pub begin_recording :
    Started → RecordingController → Answers → Bool × RecordingController
unfolding find_recording_id if_exists
begin_recording (subscribed subscription_id) c a =
    find_recording_id (record c { subscription_id = subscription_id }) a
begin_recording (refused message) c a = if_exists (find (text_of "recording exists") message) c a

unfoldable pub start_recording : RecordingController → Answers → Bool × RecordingController
unfolding check_existing_recording each is_recording begin_recording
start_recording c a =
    let checked = each check_existing_recording a.existing.descriptors c in
    if is_recording c
    then (false, c)
    else if a.existing.throws
    then (false, checked)
    else if is_recording checked
    then (true, checked)
    else begin_recording a.started checked a

-- The argument says whether the archive stops the recording of a subscription's identifier, or throws.
unfoldable pub stop_recording :
    RecordingController → (stops : ℕ → Bool) → Bool × RecordingController
unfolding is_recording
stop_recording c stops =
    if not (is_recording c)
    then (false, c)
    else if stops c.subscription_id
    then (true, record c { recording_id = minus_one; subscription_id = minus_one })
    else (false, c)

-- The destructor.
unfoldable pub destroy : RecordingController → (stops : ℕ → Bool) → RecordingController
unfolding is_recording stop_recording
destroy c stops = if is_recording c then (stop_recording c stops).1 else c
