-- ===== src/ConfigLoader/Loading.antt =====
-- `loadFromFile` and `overrideFromEnvironment`.
use aeron_archive_replay.Base.{
  ℕ, Option, none, some, List, ◌++◌, if◌then◌else◌, Text, text_of, is_empty, parse_signed,
}
use aeron_archive_replay.ConfigLoader.{AeronSettings, load_default, validate}
use aeron_archive_replay.ConfigLoader.Ini.{Entry, lookup, parse_ini}

-- What `loadFromFile` throws.
pub data LoadError : Type 0 where
  cannot_open : LoadError
  not_a_number : (key text : Text) → LoadError
  invalid : (message : Text) → LoadError

pub data Result (A : Type 0) : Type 0 where
  ok : A → Result A
  err : LoadError → Result A

infixl 2 ◌>>=◌
abbrev pub ◌>>=◌ : {A B : Type 0} → Result A → (A → Result B) → Result B
ok a >>= f = f a
err e >>= f = err e

-- The environment variables that are read; `none` where one is not set.
pub record Environment : Type 0 where
  pub aeron_dir : Option Text
  pub aeron_archive_control : Option Text
  pub aeron_publication_channel : Option Text
  pub aeron_subscription_channel : Option Text

-- A variable that is set and not empty replaces a setting.
unfoldable pub overridden : Option Text → Text → Text
overridden none setting = setting
overridden (some value) setting = if is_empty value then setting else value

unfoldable pub override_from_environment : Environment → AeronSettings → AeronSettings
unfolding overridden
override_from_environment env s = record s {
  aeron_dir = overridden env.aeron_dir s.aeron_dir;
  archive_control_request_channel =
      overridden env.aeron_archive_control s.archive_control_request_channel;
  publication_channel = overridden env.aeron_publication_channel s.publication_channel;
  subscription_channel = overridden env.aeron_subscription_channel s.subscription_channel;
}

module _ (entries : List Entry) (section key : Text) where
  -- A setting from the file, or its default.
  unfoldable pub text_setting : Text → Text
  text_setting setting = elim (lookup entries section key) [ none ↦ setting | some value ↦ value ]

  -- `parseInt` and `parseLongLong`, for 32 and 64 bits.
  unfoldable pub number_setting : ℕ → ℕ → Result ℕ
  number_setting bits setting = elim (lookup entries section key) [
    | none ↦ ok setting
    | some value ↦ elim (parse_signed bits value) [
      | none ↦ err (not_a_number (section ++ text_of "." ++ key) value)
      | some number ↦ ok number
    ]
  ]

-- The file's texts and these numbers.
unfoldable pub settings_with : List Entry → (p s r idle timeout : ℕ) → AeronSettings
unfolding text_setting
settings_with entries p s r idle timeout = record {
  aeron_dir = text_setting entries (text_of "aeron") (text_of "dir") load_default.aeron_dir;
  archive_control_request_channel =
      text_setting entries (text_of "archive") (text_of "control_request_channel")
        load_default.archive_control_request_channel;
  archive_control_response_channel =
      text_setting entries (text_of "archive") (text_of "control_response_channel")
        load_default.archive_control_response_channel;
  publication_channel =
      text_setting entries (text_of "publication") (text_of "channel")
        load_default.publication_channel;
  publication_stream_id = p;
  subscription_channel =
      text_setting entries (text_of "subscription") (text_of "channel")
        load_default.subscription_channel;
  subscription_stream_id = s;
  replay_channel =
      text_setting entries (text_of "replay") (text_of "channel") load_default.replay_channel;
  replay_stream_id = r;
  idle_sleep_ms = idle;
  message_timeout_ns = timeout;
}

-- The sections of the file over the defaults.
unfoldable pub settings_of : List Entry → Result AeronSettings
unfolding number_setting settings_with
settings_of entries = do
  p ←
      number_setting entries (text_of "publication") (text_of "stream_id") 32
        load_default.publication_stream_id
  s ←
      number_setting entries (text_of "subscription") (text_of "stream_id") 32
        load_default.subscription_stream_id
  r ←
      number_setting entries (text_of "replay") (text_of "stream_id") 32
        load_default.replay_stream_id
  idle ←
      number_setting entries (text_of "timeouts") (text_of "idle_sleep_ms") 64
        load_default.idle_sleep_ms
  timeout ←
      number_setting entries (text_of "timeouts") (text_of "message_timeout_ns") 64
        load_default.message_timeout_ns
  ok (settings_with entries p s r idle timeout)

unfoldable pub unless_refused : Option Text → AeronSettings → Result AeronSettings
unless_refused none s = ok s
unless_refused (some message) s = err (invalid message)

unfoldable pub validated : AeronSettings → Result AeronSettings
unfolding unless_refused
validated s = unless_refused (validate s) s

-- The file's contents are `none` where it does not open.
unfoldable pub load_from_file : Environment → Option Text → Result AeronSettings
unfolding settings_of override_from_environment validated parse_ini
load_from_file env file = elim (parse_ini file) [
  | none ↦ err cannot_open
  | some entries ↦ do s ← settings_of entries; validated (override_from_environment env s)
]
