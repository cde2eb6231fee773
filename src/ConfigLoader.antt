-- ===== src/ConfigLoader.antt =====
-- common/include/ConfigLoader.h and common/src/ConfigLoader.cpp, with the constants of
-- common/include/AeronConfig.h. An `int` and a `long long` are their value's 64-bit pattern. `print`
-- only prints.
pub mod Ini
pub mod Lines
pub mod Loading
pub mod Templates
pub mod Generated
pub mod Validation
pub mod Sources
use aeron_archive_replay.Base.{
  ℕ, zero, Bool, true, false, not, ◌||◌, Option, none, some, List, [], ◌∷◌, ◌++◌, ◌==◌,
  if◌then◌else◌, slt, Text, text_of, is_empty, find,
}

pub record AeronSettings : Type 0 where
  pub aeron_dir : Text
  pub archive_control_request_channel : Text
  pub archive_control_response_channel : Text
  pub publication_channel : Text
  pub publication_stream_id : ℕ
  pub subscription_channel : Text
  pub subscription_stream_id : ℕ
  pub replay_channel : Text
  pub replay_stream_id : ℕ
  pub idle_sleep_ms : ℕ
  pub message_timeout_ns : ℕ

-- The constructor; `loadDefault` returns it.
abbrev pub load_default : AeronSettings
load_default = record {
  aeron_dir = text_of "/home/hesed/shm/aeron";
  archive_control_request_channel = text_of "aeron:udp?endpoint=localhost:8010";
  archive_control_response_channel = text_of "aeron:udp?endpoint=localhost:0";
  publication_channel = text_of "aeron:udp?endpoint=224.0.1.1:40456|interface=0.0.0.0";
  publication_stream_id = 10;
  subscription_channel = text_of "aeron:udp?endpoint=224.0.1.1:40456|interface=0.0.0.0";
  subscription_stream_id = 10;
  replay_channel = text_of "aeron:udp?endpoint=localhost:40457";
  replay_stream_id = 20;
  idle_sleep_ms = 1;
  message_timeout_ns = 10000000000;
}

-- The prefix must stand at 0.
unfoldable pub test_prefix : Option ℕ → Text → Option Text
test_prefix (some zero) name = none
test_prefix _ name = some (name ++ text_of " must start with 'aeron:'")

-- `validateChannel`: the message where the channel is refused.
unfoldable pub validate_channel : Text → Text → Option Text
unfolding test_prefix
validate_channel channel name =
    if is_empty channel
    then some (name ++ text_of " is empty")
    else test_prefix (find (text_of "aeron:") channel) name

unfoldable pub validate_stream_id : ℕ → Text → Option Text
validate_stream_id stream_id name =
    if slt 0 stream_id then none else some (name ++ text_of " must be positive")

-- The first message of a list of tests.
unfoldable pub first_error : List (Option Text) → Option Text
first_error [] = none
first_error (none ∷ tests) = first_error tests
first_error (some message ∷ tests) = some message

unfoldable pub tests : AeronSettings → List (Option Text)
unfolding validate_channel validate_stream_id
tests s =
    (if is_empty s.aeron_dir then some (text_of "aeron_dir is empty") else none)
    ∷ validate_channel s.archive_control_request_channel (text_of "archive_control_request_channel")
    ∷ validate_channel s.publication_channel (text_of "publication_channel")
    ∷ validate_channel s.subscription_channel (text_of "subscription_channel")
    ∷ validate_channel s.replay_channel (text_of "replay_channel")
    ∷ validate_stream_id s.publication_stream_id (text_of "publication_stream_id")
    ∷ validate_stream_id s.subscription_stream_id (text_of "subscription_stream_id")
    ∷ validate_stream_id s.replay_stream_id (text_of "replay_stream_id")
    ∷ []

-- `validate`: the error message, or `none` where the settings are valid.
unfoldable pub validate : AeronSettings → Option Text
unfolding first_error tests
validate s = first_error (tests s)
