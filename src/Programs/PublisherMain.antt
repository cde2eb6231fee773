-- ===== src/Programs/PublisherMain.antt =====
-- publisher/src/main.cpp
use aeron_archive_replay.Base.{
  ℕ, Bool, true, false, Option, none, some, List, [], ◌∷◌, ◌==◌, if◌then◌else◌, minus_one, Text,
  atoi,
}
use aeron_archive_replay.ConfigLoader.{AeronSettings}
use aeron_archive_replay.ConfigLoader.Loading.{Environment}
use aeron_archive_replay.AeronPublisher
use aeron_archive_replay.AeronPublisher.{
  AeronPublisher, PublisherConfig, InitializeAnswers, initialize, shutdown,
}
use aeron_archive_replay.AeronPublisher.Running.{Turn, run, begin}
use aeron_archive_replay.Programs.{Outcome, continues, exits, ◌>>=◌, Files, load_settings, replaced}

pub data PublisherOption : Type 0 where
  config : (file : Text) → PublisherOption
  aeron_dir : (path : Text) → PublisherOption
  pub_channel : (channel : Text) → PublisherOption
  pub_stream_id : (id : Text) → PublisherOption
  archive_control : (channel : Text) → PublisherOption
  archive_response : (channel : Text) → PublisherOption
  interval : (ms : Text) → PublisherOption
  auto_record : PublisherOption
  print_config : PublisherOption
  help : PublisherOption
  unknown : PublisherOption

-- The variables that the options set.
pub record PublisherOptions : Type 0 where
  pub config_file : Text
  pub print_config_only : Bool
  pub override_aeron_dir : Text
  pub override_pub_channel : Text
  pub override_pub_stream_id : ℕ
  pub override_archive_control : Text
  pub override_archive_response : Text
  pub override_interval : ℕ
  pub auto_record : Bool

abbrev pub no_options : PublisherOptions
no_options = record {
  config_file = [];
  print_config_only = false;
  override_aeron_dir = [];
  override_pub_channel = [];
  override_pub_stream_id = minus_one;
  override_archive_control = [];
  override_archive_response = [];
  override_interval = minus_one;
  auto_record = false;
}

unfoldable pub set_option : PublisherOptions → PublisherOption → Outcome PublisherOptions
unfolding atoi
set_option o (config file) = continues (record o { config_file = file })
set_option o (aeron_dir path) = continues (record o { override_aeron_dir = path })
set_option o (pub_channel channel) = continues (record o { override_pub_channel = channel })
set_option o (pub_stream_id id) = continues (record o { override_pub_stream_id = atoi id })
set_option o (archive_control channel) = continues (record o { override_archive_control = channel })
set_option o (archive_response channel) =
    continues (record o { override_archive_response = channel })
set_option o (interval ms) = continues (record o { override_interval = atoi ms })
set_option o auto_record = continues (record o { auto_record = true })
set_option o print_config = continues (record o { print_config_only = true })
set_option o help = exits 0
set_option o unknown = exits 1

unfoldable pub parse_options : PublisherOptions → List PublisherOption → Outcome PublisherOptions
unfolding set_option
parse_options o [] = continues o
parse_options o (option ∷ options) = do set ← set_option o option; parse_options set options

-- The settings after the options.
unfoldable pub override_settings : PublisherOptions → AeronSettings → AeronSettings
unfolding replaced
override_settings o s = record s {
  aeron_dir = replaced o.override_aeron_dir s.aeron_dir;
  publication_channel = replaced o.override_pub_channel s.publication_channel;
  publication_stream_id =
      if o.override_pub_stream_id == minus_one
      then s.publication_stream_id
      else o.override_pub_stream_id;
  archive_control_request_channel =
      replaced o.override_archive_control s.archive_control_request_channel;
  archive_control_response_channel =
      replaced o.override_archive_response s.archive_control_response_channel;
}

unfoldable pub publisher_config : PublisherOptions → AeronSettings → PublisherConfig
publisher_config o s = record AeronPublisher.default_config {
  aeron_dir = s.aeron_dir;
  publication_channel = s.publication_channel;
  publication_stream_id = s.publication_stream_id;
  archive_control_request_channel = s.archive_control_request_channel;
  archive_control_response_channel = s.archive_control_response_channel;
  auto_record = o.auto_record;
  message_interval_ms =
      if o.override_interval == minus_one
      then AeronPublisher.default_config.message_interval_ms
      else o.override_interval;
}

-- Up to the publisher's constructor.
unfoldable pub configure : Environment → Files → List PublisherOption → Outcome PublisherConfig
unfolding parse_options load_settings override_settings publisher_config
configure env files options = do
  o ← parse_options no_options options
  s ← load_settings env files o.config_file
  let overridden = override_settings o s
  if o.print_config_only then exits 0 else continues (publisher_config o overridden)

-- The exit code, and the publisher after its destructor; `none` where `initialize` still waits.
unfoldable pub launch :
    PublisherConfig
    → InitializeAnswers
    → List Turn
    → (stops : ℕ → Bool) → Option (ℕ × AeronPublisher)
unfolding initialize run shutdown
launch c i turns stops = elim (initialize (AeronPublisher.new c) i) [
  | none ↦ none
  | some answer ↦
      if answer.0
      then some (0, shutdown (run (begin answer.1) turns).publisher stops)
      else some (1, shutdown answer.1 stops)
]
