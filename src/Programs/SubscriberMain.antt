-- ===== src/Programs/SubscriberMain.antt =====
-- subscriber/src/main.cpp, but for its threads and its printing. `stoll` of an option's text that is no
-- number throws, and nothing catches it.
use aeron_archive_replay.Base.{
  ℕ, Bool, true, false, Option, none, some, List, [], ◌∷◌, ◌++◌, if◌then◌else◌, ◌&&◌, minus_one,
  slt, Text, text_of, parse_signed,
}
use aeron_archive_replay.ConfigLoader.{AeronSettings}
use aeron_archive_replay.ConfigLoader.Loading.{Environment}
use aeron_archive_replay.CheckpointManager
use aeron_archive_replay.CheckpointManager.{get_last_position}
use aeron_archive_replay.AeronSubscriber.{
  AeronSubscriber, SubscriberConfig, default_config, new, initialize, initialize_zero_copy,
  enable_checkpoint,
}
use aeron_archive_replay.AeronSubscriber.Recording.{
  Archive, MergeAnswers, start_live, start_replay_merge_auto,
}
use aeron_archive_replay.Programs.{
  Outcome, continues, exits, aborts, ◌>>=◌, Files, load_settings, replaced,
}

pub data SubscriberOption : Type 0 where
  config : (file : Text) → SubscriberOption
  aeron_dir : (path : Text) → SubscriberOption
  archive_control : (channel : Text) → SubscriberOption
  replay_auto : SubscriberOption
  position : (position : Text) → SubscriberOption
  print_config : SubscriberOption
  no_gap_recovery : SubscriberOption
  gap_tolerance : (tolerance : Text) → SubscriberOption
  no_duplicate_check : SubscriberOption
  duplicate_window : (size : Text) → SubscriberOption
  help : SubscriberOption
  unknown : SubscriberOption

pub record SubscriberOptions : Type 0 where
  pub config_file : Text
  pub print_config_only : Bool
  pub replay_auto_mode : Bool
  pub start_position : ℕ
  pub override_aeron_dir : Text
  pub override_archive_control : Text
  pub gap_recovery_override : Bool
  pub gap_recovery_enabled : Bool
  pub duplicate_check_override : Bool
  pub duplicate_check_enabled : Bool
  pub gap_tolerance_override : ℕ
  pub duplicate_window_override : ℕ

abbrev pub no_options : SubscriberOptions
no_options = record {
  config_file = [];
  print_config_only = false;
  replay_auto_mode = false;
  start_position = 0;
  override_aeron_dir = [];
  override_archive_control = [];
  gap_recovery_override = false;
  gap_recovery_enabled = true;
  duplicate_check_override = false;
  duplicate_check_enabled = true;
  gap_tolerance_override = minus_one;
  duplicate_window_override = minus_one;
}

unfoldable pub or_abort : Option ℕ → Outcome ℕ
or_abort none = aborts
or_abort (some n) = continues n

unfoldable pub set_option : SubscriberOptions → SubscriberOption → Outcome SubscriberOptions
unfolding or_abort parse_signed
set_option o (config file) = continues (record o { config_file = file })
set_option o (aeron_dir path) = continues (record o { override_aeron_dir = path })
set_option o (archive_control channel) = continues (record o { override_archive_control = channel })
set_option o replay_auto = continues (record o { replay_auto_mode = true })
set_option o (position text) = do
  n ← or_abort (parse_signed 64 text)
  continues (record o { start_position = n })
set_option o print_config = continues (record o { print_config_only = true })
set_option o no_gap_recovery =
    continues (record o { gap_recovery_override = true; gap_recovery_enabled = false })
set_option o (gap_tolerance text) = do
  n ← or_abort (parse_signed 64 text)
  continues (record o { gap_tolerance_override = n })
set_option o no_duplicate_check =
    continues (record o { duplicate_check_override = true; duplicate_check_enabled = false })
set_option o (duplicate_window text) = do
  n ← or_abort (parse_signed 64 text)
  continues (record o { duplicate_window_override = n })
set_option o help = exits 0
set_option o unknown = exits 1

unfoldable pub parse_options : SubscriberOptions → List SubscriberOption → Outcome SubscriberOptions
unfolding set_option
parse_options o [] = continues o
parse_options o (option ∷ options) = do set ← set_option o option; parse_options set options

unfoldable pub override_settings : SubscriberOptions → AeronSettings → AeronSettings
unfolding replaced
override_settings o s = record s {
  aeron_dir = replaced o.override_aeron_dir s.aeron_dir;
  archive_control_request_channel =
      replaced o.override_archive_control s.archive_control_request_channel;
}

unfoldable pub subscriber_config : SubscriberOptions → AeronSettings → SubscriberConfig
subscriber_config o s = record {
  aeron_dir = s.aeron_dir;
  archive_control_channel = s.archive_control_request_channel;
  subscription_channel = s.subscription_channel;
  subscription_stream_id = s.subscription_stream_id;
  replay_destination = s.replay_channel;
  gap_recovery_enabled =
      if o.gap_recovery_override
      then o.gap_recovery_enabled
      else default_config.gap_recovery_enabled;
  max_gap_tolerance =
      if slt 0 o.gap_tolerance_override
      then o.gap_tolerance_override
      else default_config.max_gap_tolerance;
  gap_recovery_timeout_ms = default_config.gap_recovery_timeout_ms;
  duplicate_check_enabled =
      if o.duplicate_check_override
      then o.duplicate_check_enabled
      else default_config.duplicate_check_enabled;
  duplicate_window_size =
      if slt 0 o.duplicate_window_override
      then o.duplicate_window_override
      else default_config.duplicate_window_size;
}

-- Up to the subscriber's constructor: the options, and its configuration.
unfoldable pub configure :
    Environment → Files → List SubscriberOption → Outcome (SubscriberOptions × SubscriberConfig)
unfolding parse_options load_settings override_settings subscriber_config
configure env files options = do
  o ← parse_options no_options options
  s ← load_settings env files o.config_file
  let overridden = override_settings o s
  if o.print_config_only then exits 0 else continues (o, subscriber_config o overridden)

-- `checkpoint_file`
abbrev pub checkpoint_file : SubscriberConfig → Text
checkpoint_file c = c.aeron_dir ++ text_of "/subscriber.checkpoint"

-- Where a replay starts, from the position of the checkpoint.
unfoldable pub start_position : SubscriberOptions → (checkpoint_position : ℕ) → ℕ
start_position o checkpoint_position =
    if slt 0 checkpoint_position && o.replay_auto_mode
    then checkpoint_position
    else o.start_position

unfoldable pub checkpoint_position : AeronSubscriber → ℕ
checkpoint_position s = elim s.checkpoint [ none ↦ 0 | some c ↦ get_last_position c ]

-- What a start answers: the exit code is 1 where there is no live mode either.
unfoldable pub or_fail : Option (Bool × AeronSubscriber) → Option (Outcome AeronSubscriber)
or_fail none = none
or_fail (some (true, s)) = some (continues s)
or_fail (some (false, s)) = some (exits 1)

-- Live mode where the replay does not start.
unfoldable pub or_live :
    List Bool → Option (Bool × AeronSubscriber) → Option (Outcome AeronSubscriber)
unfolding start_live or_fail
or_live live none = none
or_live live (some (true, s)) = some (continues s)
or_live live (some (false, s)) = or_fail (start_live s live)

unfoldable pub start_receiving :
    Archive
    → MergeAnswers
    → (live : List Bool) → SubscriberOptions
    → AeronSubscriber
    → Option (Outcome AeronSubscriber)
unfolding start_position checkpoint_position or_live start_replay_merge_auto
start_receiving a m live o s =
    if o.replay_auto_mode
    then or_live live (start_replay_merge_auto a s m (start_position o (checkpoint_position s)))
    else or_fail (start_live s live)

-- From the subscriber's constructor until it runs; `files` are those of the checkpoint. Neither the
-- pool nor the queue is null. `none` where it still waits.
unfoldable pub launch :
    (connects : Bool)
    → CheckpointManager.Files
    → Archive
    → MergeAnswers
    → (live : List Bool) → SubscriberOptions
    → SubscriberConfig
    → Option (Outcome AeronSubscriber)
unfolding initialize initialize_zero_copy enable_checkpoint start_receiving
launch connects files a m live o c =
    let (reached, s) = initialize (new c) connects in
    if reached
    then elim (initialize_zero_copy s true true) [
      | none ↦ some aborts
      | some ready ↦ start_receiving a m live o (enable_checkpoint ready files)
    ]
    else some (exits 1)
