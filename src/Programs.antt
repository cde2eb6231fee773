-- ===== src/Programs.antt =====
-- The programs of publisher/src/main.cpp and subscriber/src/main.cpp: their options, as `getopt_long`
-- delivers them, their settings, and what they start. The options' texts, the environment and the
-- files are arguments.
pub mod PublisherMain
pub mod SubscriberMain
pub mod Monitor
pub mod Monitoring
pub mod Latency
pub mod Precedence
pub mod Stopping
pub mod Starting
use aeron_archive_replay.Base.{ℕ, Option, none, some, if◌then◌else◌, Text, is_empty}
use aeron_archive_replay.ConfigLoader.{AeronSettings, load_default}
use aeron_archive_replay.ConfigLoader.Loading.{Environment, Result, ok, load_from_file}

-- Where a part of `main` leads: on, with a value, to an exit code, or to an exception that nothing
-- catches.
pub data Outcome (A : Type 0) : Type 0 where
  continues : A → Outcome A
  exits : (code : ℕ) → Outcome A
  aborts : Outcome A

infixl 2 ◌>>=◌
abbrev pub ◌>>=◌ : {A B : Type 0} → Outcome A → (A → Outcome B) → Outcome B
continues a >>= f = f a
exits code >>= f = exits code
aborts >>= f = aborts

-- What stands at a path, or `none` where no file opens.
abbrev pub Files : Type 0
Files = Text → Option Text

-- An exception that `loadFromFile` throws ends the program with 1.
unfoldable pub or_exit : Result AeronSettings → Outcome AeronSettings
or_exit (ok s) = continues s
or_exit _ = exits 1

-- The file, if one is named.
unfoldable pub load_settings : Environment → Files → (config_file : Text) → Outcome AeronSettings
unfolding load_from_file or_exit
load_settings env files config_file =
    if is_empty config_file
    then continues load_default
    else or_exit (load_from_file env (files config_file))

-- An option with a text that is not empty replaces a setting.
unfoldable pub replaced : Text → Text → Text
replaced option setting = if is_empty option then setting else option
