-- ===== src/Tests/Config.antt =====
-- Configuration files, and the programs' settings from them.
use aeron_archive_replay.Base.{
  ◌≡◌, refl, true, none, some, List, ◌∷◌, ◌++◌, Text, text_of, find, starts_with, same_text,
  skip_spaces, number_from, parse_signed, decimal_within, decimal,
}
use aeron_archive_replay.ConfigLoader.{
  AeronSettings, load_default, tests, first_error, test_prefix, validate_channel,
  validate_stream_id, validate,
}
use aeron_archive_replay.ConfigLoader.Ini.{
  Entry, trim_left, trim_right, trim, lookup, split_equals, ends_with, assign, read_trimmed,
  read_line, read_lines, parse_ini,
}
use aeron_archive_replay.ConfigLoader.Loading.{
  Environment, ok, overridden, override_from_environment, text_setting, number_setting,
  settings_with, settings_of, unless_refused, validated, load_from_file,
}
use aeron_archive_replay.ConfigLoader.Templates.{generate_template}
use aeron_archive_replay.ConfigLoader.Lines.{is_line}
use aeron_archive_replay.ConfigLoader.Generated.{
  unset, template_settings, load_from_file-generate_template,
}
use aeron_archive_replay.ConfigLoader.Validation.{IsUsable}
use aeron_archive_replay.ConfigLoader.Sources.{IsFrom, load_from_file-IsFrom}

largest : parse_signed 32 (text_of " +2147483647x") ≡ some 2147483647
unfolding parse_signed skip_spaces number_from
largest = refl

too_large : parse_signed 32 (text_of "2147483648") ≡ none
unfolding parse_signed skip_spaces number_from
too_large = refl

printed : decimal 1070 ≡ text_of "1070"
unfolding decimal decimal_within
printed = refl

one_line : is_line (text_of "local") ≡ true
unfolding is_line
one_line = refl

load_from_file-generate_template_example :
    load_from_file unset (generate_template true (text_of "local"))
    ≡ ok (template_settings (text_of "local"))
load_from_file-generate_template_example =
    load_from_file-generate_template (text_of "local") one_line

-- One key, and one variable in the environment.
abbrev pub content : Text
content = text_of "[aeron]" ++ 10 ∷ text_of "dir = /tmp/a"

abbrev pub environment : Environment
environment = record unset { aeron_publication_channel = some (text_of "aeron:ipc") }

abbrev pub settings : AeronSettings
settings = record load_default {
  aeron_dir = text_of "/tmp/a";
  publication_channel = text_of "aeron:ipc";
}

pub content_loads : load_from_file environment (some content) ≡ ok settings
unfolding load_from_file parse_ini read_lines read_line trim trim_left trim_right read_trimmed
    split_equals ends_with assign lookup text_setting number_setting settings_with settings_of
    override_from_environment overridden validated unless_refused validate tests first_error
    validate_channel validate_stream_id test_prefix find starts_with same_text parse_signed
    skip_spaces number_from
content_loads = refl

load_from_file-IsFrom_example :
    (entries : List Entry) × (parse_ini (some content) ≡ some entries)
    × IsFrom environment entries settings
    × IsUsable settings
load_from_file-IsFrom_example = load_from_file-IsFrom environment content content_loads
