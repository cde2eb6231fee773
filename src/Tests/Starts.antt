-- ===== src/Tests/Starts.antt =====
-- The programs: options, starts and the monitor.
use aeron_archive_replay.AeronSubscriber.Shutdown as Shutdown
use aeron_archive_replay.AeronSubscriber.Shutdown.{
  Handles, crashed, polling, resetting_merge, receiver_turn, main_turn,
}
use aeron_archive_replay.AeronSubscriber.Shutdown.Order.{
  quiet, late_reset, late_reset_crashes, orderly,
}
use aeron_archive_replay.AeronSubscriber.Shutdown.Safety.{
  orderly-alive, distance, receiver_turns, has_ended, run-has_ended,
}
use aeron_archive_replay.Base.{
  arith, ◌≢◌, ◌≤◌, ◌≡◌, inl, refl, ap, true, false, none, some, List, [], ◌∷◌, ◌==◌, minus_one,
  if◌then◌else◌, text_of,
}
use aeron_archive_replay.ConfigLoader.{AeronSettings}
use aeron_archive_replay.ConfigLoader.Ini.{Entry, parse_ini}
use aeron_archive_replay.ConfigLoader.Validation.{IsUsable}
use aeron_archive_replay.ConfigLoader.Sources.{IsFrom, first_of}
use aeron_archive_replay.CheckpointManager
use aeron_archive_replay.AeronSubscriber.{AeronSubscriber, default_config}
use aeron_archive_replay.AeronSubscriber.Recording.{Archive, MergeAnswers, wait_for_subscription}
use aeron_archive_replay.AeronPublisher.{PublisherConfig}
use aeron_archive_replay.Programs.{continues, ◌>>=◌, Files, load_settings, or_exit}
use aeron_archive_replay.Programs.PublisherMain.{
  PublisherOption, PublisherOptions, config, aeron_dir, no_options, set_option, parse_options,
  override_settings, publisher_config, configure,
}
use aeron_archive_replay.Programs.SubscriberMain
use aeron_archive_replay.Programs.SubscriberMain.{launch}
use aeron_archive_replay.Programs.Precedence.{configure-IsFrom}
use aeron_archive_replay.Programs.Starting.{IsReady, launch-Runs}
use aeron_archive_replay.Tests.Config.{content, environment, settings, content_loads}

abbrev files : Files
files path = some content

abbrev options : List PublisherOption
options = config (text_of "a.ini") ∷ aeron_dir (text_of "/tmp/b") ∷ []

abbrev parsed : PublisherOptions
parsed = record no_options { config_file = text_of "a.ini"; override_aeron_dir = text_of "/tmp/b" }

parses : parse_options no_options options ≡ continues parsed
unfolding parse_options set_option
parses = refl

abbrev configuration : PublisherConfig
configuration = publisher_config parsed (override_settings parsed settings)

configures : configure environment files options ≡ continues configuration
unfolding configure load_settings parse_options set_option or_exit
configures =
    ap (λ r. or_exit r >>= (λ s. continues (publisher_config parsed (override_settings parsed s))))
      content_loads

configure-IsFrom_example :
    (s : AeronSettings) × (entries : List Entry) × (parse_ini (some content) ≡ some entries)
    × IsFrom environment entries s
    × IsUsable s
    × (configuration.aeron_dir ≡ first_of (some (text_of "/tmp/b")) none s.aeron_dir)
    × (configuration.publication_channel ≡ first_of (some []) none s.publication_channel)
    × (configuration.archive_control_request_channel
        ≡ first_of (some []) none s.archive_control_request_channel)
    × (configuration.archive_control_response_channel
        ≡ first_of (some []) none s.archive_control_response_channel)
    × (configuration.publication_stream_id
        ≡ (if minus_one == minus_one then s.publication_stream_id else minus_one))
configure-IsFrom_example = configure-IsFrom environment files options parses refl configures

nothing : parse_options no_options [] ≡ continues no_options
unfolding parse_options
nothing = refl

abbrev no_archive : Archive
no_archive = record {
  find_last_matching_recording = λ least channel stream session. none;
  get_recording_position = λ recording_id. none;
}

abbrev no_merge : MergeAnswers
no_merge = record { adds = false; found = []; builds = false }

abbrev no_files : CheckpointManager.Files
no_files = record { checkpoint_file = none; temp_file = none }

found_second : wait_for_subscription (false ∷ true ∷ []) ≡ true
unfolding wait_for_subscription
found_second = refl

launch-Runs_example :
    (s : AeronSubscriber) × (launch true no_files no_archive no_merge
        (false ∷ true ∷ [])
        (record SubscriberMain.no_options { replay_auto_mode = true })
        default_config
      ≡ some (continues s))
    × IsReady default_config s
    × (s.subscription ≡ true)
launch-Runs_example =
    launch-Runs (false ∷ true ∷ []) found_second no_files no_archive no_merge
      (record SubscriberMain.no_options { replay_auto_mode = true }) (inl refl)

-- A subscriber in live mode.
abbrev live_handles : Handles
live_handles = record {
  running = true;
  replay_merge = false;
  subscription = true;
  archive = true;
  aeron = true;
}

late_reset_crashes_example :
    (Shutdown.run (Shutdown.start live_handles) late_reset).receiver ≡ crashed
late_reset_crashes_example = late_reset_crashes live_handles refl refl

-- One turn of the loop, then the whole shutdown.
abbrev orderly_turns : List Shutdown.Turn
orderly_turns =
    receiver_turn quiet
    ∷ receiver_turn quiet
    ∷ receiver_turn quiet
    ∷ receiver_turn quiet
    ∷ main_turn true
    ∷ main_turn true
    ∷ main_turn true
    ∷ main_turn true
    ∷ receiver_turn quiet
    ∷ main_turn true
    ∷ main_turn true
    ∷ main_turn true
    ∷ []

orderly_turns-orderly : orderly (Shutdown.start live_handles) orderly_turns ≡ true
unfolding orderly
orderly_turns-orderly = refl

orderly-alive_example :
    (Shutdown.run (Shutdown.start live_handles) orderly_turns).receiver ≢ crashed
orderly-alive_example = orderly-alive live_handles orderly_turns orderly_turns-orderly

-- The main thread has cleared the flag while the receiver is about to poll.
abbrev stopped : Shutdown.System
stopped = record {
  handles = record live_handles { running = false };
  receiver = polling;
  main = resetting_merge;
}

abbrev last_turns : List Shutdown.Turn
last_turns = receiver_turn quiet ∷ main_turn true ∷ receiver_turn quiet ∷ []

two_turns : distance polling ≤ receiver_turns last_turns
unfolding distance receiver_turns
two_turns = omega arith

run-has_ended_example : has_ended (Shutdown.run stopped last_turns).receiver ≡ true
run-has_ended_example = run-has_ended last_turns stopped refl two_turns
