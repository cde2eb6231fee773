-- ===== src/ConfigLoader/Generated.antt =====
-- What `generateTemplate` writes, `loadFromFile` reads.
use aeron_archive_replay.Base.{
  ◌≡◌, refl, ap, ◌∙◌, Bool-cases, inl, inr, Bool, true, false, ◌&&◌, ◌==◌, ==_iff, all_true,
  all_true-get_or, same_text_eq, arith, none, some, List, [], ◌∷◌, ◌++◌, if◌then◌else◌, Text,
  text_of, find, same_text, starts_with, parse_signed, skip_spaces, number_from,
}
use aeron_archive_replay.ConfigLoader.{
  AeronSettings, load_default, validate, tests, test_prefix, validate_channel, validate_stream_id,
  first_error,
}
use aeron_archive_replay.ConfigLoader.Ini.{
  Entry, parse_ini, Reader, trim, read_trimmed, read_line, read_lines, split_equals, assign,
  ends_with, lookup, trim_left, trim_right,
}
use aeron_archive_replay.ConfigLoader.Loading.{
  Environment, Result, ok, err, ◌>>=◌, settings_of, settings_with, unless_refused, text_setting,
  number_setting, overridden, override_from_environment, validated, load_from_file,
}
use aeron_archive_replay.ConfigLoader.Lines.{lines, is_line, are_lines, read_each, read_lines-lines}
use aeron_archive_replay.ConfigLoader.Templates.{
  heading, local_part, distributed_part, production_part, timeouts_part, template_part,
  generate_template,
}

-- The defaults at other hosts.
abbrev at : Text → Text → AeronSettings
at request channel = record load_default {
  aeron_dir = text_of "/dev/shm/aeron";
  archive_control_request_channel = request;
  publication_channel = channel;
  subscription_channel = channel;
}

abbrev local_settings : AeronSettings
local_settings =
    at (text_of "aeron:udp?endpoint=localhost:8010") (text_of "aeron:udp?endpoint=localhost:40456")

abbrev distributed_settings : AeronSettings
distributed_settings =
    at (text_of "aeron:udp?endpoint=192.168.1.10:8010")
      (text_of "aeron:udp?endpoint=224.0.1.1:40456|interface=0.0.0.0")

abbrev production_settings : AeronSettings
production_settings =
    at (text_of "aeron:udp?endpoint=PUBLISHER_IP:8010")
      (text_of "aeron:udp?endpoint=MULTICAST_IP:40456|interface=0.0.0.0")

-- The settings that a template holds.
unfoldable pub template_settings : Text → AeronSettings
template_settings kind =
    if same_text kind (text_of "local")
    then local_settings
    else if same_text kind (text_of "distributed")
    then distributed_settings
    else production_settings

abbrev pub unset : Environment
unset = record {
  aeron_dir = none;
  aeron_archive_control = none;
  aeron_publication_channel = none;
  aeron_subscription_channel = none;
}

abbrev begin : Reader
begin = record { current_section = []; result = [] }

-- The heading is comments, whatever one line of them says.
read_each-heading :
    (kind : Text) (part : List Text) → read_each begin (heading kind ++ part) ≡ read_each begin part
unfolding read_each read_line read_trimmed trim trim_left trim_right
read_each-heading kind part = refl

-- What follows the reading of the file, without the variables in the environment.
unfoldable loaded : List Entry → Result AeronSettings
unfolding settings_of
loaded entries = settings_of entries >>= (λ s. validated (override_from_environment unset s))

-- The tests that two settings are the same, field by field.
abbrev comparisons : AeronSettings → AeronSettings → List Bool
comparisons s t =
    same_text s.aeron_dir t.aeron_dir
    ∷ same_text s.archive_control_request_channel t.archive_control_request_channel
    ∷ same_text s.archive_control_response_channel t.archive_control_response_channel
    ∷ same_text s.publication_channel t.publication_channel
    ∷ (s.publication_stream_id == t.publication_stream_id)
    ∷ same_text s.subscription_channel t.subscription_channel
    ∷ (s.subscription_stream_id == t.subscription_stream_id)
    ∷ same_text s.replay_channel t.replay_channel
    ∷ (s.replay_stream_id == t.replay_stream_id)
    ∷ (s.idle_sleep_ms == t.idle_sleep_ms)
    ∷ (s.message_timeout_ns == t.message_timeout_ns)
    ∷ []

unfoldable is_loaded : Result AeronSettings → AeronSettings → Bool
is_loaded (err e) t = false
is_loaded (ok s) t = all_true (comparisons s t)

is_loaded_eq : (r : Result AeronSettings) (t : AeronSettings) → is_loaded r t ≡ true → r ≡ ok t
unfolding is_loaded
is_loaded_eq (err e) t h = absurd (ground arith)
is_loaded_eq (ok s) t h = λ i. ok (record {
  aeron_dir = same_text_eq s.aeron_dir t.aeron_dir (all_true-get_or (comparisons s t) h 0) i;
  archive_control_request_channel =
      same_text_eq s.archive_control_request_channel t.archive_control_request_channel
        (all_true-get_or (comparisons s t) h 1) i;
  archive_control_response_channel =
      same_text_eq s.archive_control_response_channel t.archive_control_response_channel
        (all_true-get_or (comparisons s t) h 2) i;
  publication_channel =
      same_text_eq s.publication_channel t.publication_channel
        (all_true-get_or (comparisons s t) h 3) i;
  publication_stream_id =
      (==_iff s.publication_stream_id t.publication_stream_id).0
        (all_true-get_or (comparisons s t) h 4) i;
  subscription_channel =
      same_text_eq s.subscription_channel t.subscription_channel
        (all_true-get_or (comparisons s t) h 5) i;
  subscription_stream_id =
      (==_iff s.subscription_stream_id t.subscription_stream_id).0
        (all_true-get_or (comparisons s t) h 6) i;
  replay_channel =
      same_text_eq s.replay_channel t.replay_channel (all_true-get_or (comparisons s t) h 7) i;
  replay_stream_id =
      (==_iff s.replay_stream_id t.replay_stream_id).0 (all_true-get_or (comparisons s t) h 8) i;
  idle_sleep_ms =
      (==_iff s.idle_sleep_ms t.idle_sleep_ms).0 (all_true-get_or (comparisons s t) h 9) i;
  message_timeout_ns =
      (==_iff s.message_timeout_ns t.message_timeout_ns).0 (all_true-get_or (comparisons s t) h 10)
        i;
})

module _ (kind : Text) (h : is_line kind ≡ true) where
  read_lines-heading :
      (part : List Text)
      → are_lines part ≡ true
      → read_lines begin [] (lines (heading kind ++ part)) ≡ read_each begin part
  unfolding are_lines is_line
  read_lines-heading part one_each =
      read_lines-lines begin (heading kind ++ part) all ∙ read_each-heading kind part
    where
      all : are_lines (heading kind ++ part) ≡ true
      all = ap (λ b. b && are_lines part) h ∙ one_each

  part_loads :
      (part : List Text) (s : AeronSettings)
      → are_lines (part ++ timeouts_part) ≡ true
      → is_loaded (loaded (read_each begin (part ++ timeouts_part)).result) s ≡ true
      → load_from_file unset (some (lines (heading kind ++ (part ++ timeouts_part)))) ≡ ok s
  unfolding load_from_file loaded parse_ini
  part_loads part s one_each same =
      ap (λ (r : Reader). loaded r.result) (read_lines-heading (part ++ timeouts_part) one_each)
      ∙ is_loaded_eq (loaded (read_each begin (part ++ timeouts_part)).result) s same

are_lines-local : are_lines (local_part ++ timeouts_part) ≡ true
unfolding are_lines is_line
are_lines-local = refl

is_loaded-local :
    is_loaded (loaded (read_each begin (local_part ++ timeouts_part)).result) local_settings ≡ true
unfolding is_loaded loaded read_each read_line trim read_trimmed split_equals assign ends_with
    lookup trim_left trim_right text_setting number_setting settings_of settings_with validated
    unless_refused override_from_environment overridden validate tests test_prefix validate_channel
    validate_stream_id first_error find same_text starts_with parse_signed skip_spaces number_from
is_loaded-local = refl

are_lines-distributed : are_lines (distributed_part ++ timeouts_part) ≡ true
unfolding are_lines is_line
are_lines-distributed = refl

is_loaded-distributed :
    is_loaded
      (loaded (read_each begin (distributed_part ++ timeouts_part)).result)
      distributed_settings
    ≡ true
unfolding is_loaded loaded read_each read_line trim read_trimmed split_equals assign ends_with
    lookup trim_left trim_right text_setting number_setting settings_of settings_with validated
    unless_refused override_from_environment overridden validate tests test_prefix validate_channel
    validate_stream_id first_error find same_text starts_with parse_signed skip_spaces number_from
is_loaded-distributed = refl

are_lines-production : are_lines (production_part ++ timeouts_part) ≡ true
unfolding are_lines is_line
are_lines-production = refl

is_loaded-production :
    is_loaded
      (loaded (read_each begin (production_part ++ timeouts_part)).result)
      production_settings
    ≡ true
unfolding is_loaded loaded read_each read_line trim read_trimmed split_equals assign ends_with
    lookup trim_left trim_right text_setting number_setting settings_of settings_with validated
    unless_refused override_from_environment overridden validate tests test_prefix validate_channel
    validate_stream_id first_error find same_text starts_with parse_signed skip_spaces number_from
is_loaded-production = refl

-- A template, read back without the variables in the environment, loads without an error and gives
-- the settings of its kind; the text that names the kind may be any without an end of a line.
pub load_from_file-generate_template :
    (kind : Text)
    → is_line kind ≡ true
    → load_from_file unset (generate_template true kind) ≡ ok (template_settings kind)
unfolding generate_template template_part template_settings
load_from_file-generate_template kind h = elim (Bool-cases (same_text kind (text_of "local"))) [
  | inl here ↦ rw here (part_loads kind h local_part local_settings are_lines-local is_loaded-local)
  | inr not_local ↦ elim (Bool-cases (same_text kind (text_of "distributed"))) [
    | inl here ↦
        rw (not_local, here)
          (part_loads kind h distributed_part distributed_settings are_lines-distributed
            is_loaded-distributed)
    | inr other ↦
        rw (not_local, other)
          (part_loads kind h production_part production_settings are_lines-production
            is_loaded-production)
  ]
]
