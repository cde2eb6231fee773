-- ===== src/ConfigLoader/Sources.antt =====
-- Where the settings that `loadFromFile` returns come from.
use aeron_archive_replay.Base.{
  ℕ, ◌≡◌, refl, ap, subst, Option, none, some, List, [], ◌∷◌, Text, text_of, arith,
}
use aeron_archive_replay.ConfigLoader.{AeronSettings, load_default, validate}
use aeron_archive_replay.ConfigLoader.Ini.{Entry, lookup, read_lines, parse_ini}
use aeron_archive_replay.ConfigLoader.Validation.{IsUsable, validate-IsUsable}
use aeron_archive_replay.ConfigLoader.Loading.{
  Environment, Result, ok, err, ◌>>=◌, overridden, override_from_environment, text_setting,
  number_setting, settings_with, settings_of, unless_refused, validated, load_from_file,
}

-- The first source that has a setting: the environment, if it is not empty there, the file, the
-- default.
unfoldable pub first_of : Option Text → Option Text → Text → Text
first_of (some (c ∷ t)) file setting = c ∷ t
first_of _ (some value) setting = value
first_of _ none setting = setting

overridden-text_setting :
    (env : Option Text) (entries : List Entry) (section key setting : Text)
    → overridden env (text_setting entries section key setting)
      ≡ first_of env (lookup entries section key) setting
unfolding overridden text_setting first_of
overridden-text_setting env entries section key setting = by_cases env (lookup entries section key)
  where
    by_cases :
        (env file : Option Text)
        → overridden env (elim file [ none ↦ setting | some value ↦ value ])
          ≡ first_of env file setting
    by_cases none none = refl
    by_cases none (some value) = refl
    by_cases (some []) none = refl
    by_cases (some []) (some value) = refl
    by_cases (some (c ∷ t)) none = refl
    by_cases (some (c ∷ t)) (some value) = refl

-- The settings are those of the entries of a file and of the environment.
pub record IsFrom (env : Environment) (entries : List Entry) (s : AeronSettings) : Type 0 where
  pub aeron_dir :
      s.aeron_dir
      ≡ first_of env.aeron_dir
          (lookup entries (text_of "aeron") (text_of "dir"))
          load_default.aeron_dir
  pub request_channel :
      s.archive_control_request_channel
      ≡ first_of env.aeron_archive_control
          (lookup entries (text_of "archive") (text_of "control_request_channel"))
          load_default.archive_control_request_channel
  pub response_channel :
      s.archive_control_response_channel
      ≡ first_of none
          (lookup entries (text_of "archive") (text_of "control_response_channel"))
          load_default.archive_control_response_channel
  pub publication_channel :
      s.publication_channel
      ≡ first_of env.aeron_publication_channel
          (lookup entries (text_of "publication") (text_of "channel"))
          load_default.publication_channel
  pub subscription_channel :
      s.subscription_channel
      ≡ first_of env.aeron_subscription_channel
          (lookup entries (text_of "subscription") (text_of "channel"))
          load_default.subscription_channel
  pub replay_channel :
      s.replay_channel
      ≡ first_of none
          (lookup entries (text_of "replay") (text_of "channel"))
          load_default.replay_channel
  pub publication_stream_id :
      number_setting entries
        (text_of "publication")
        (text_of "stream_id")
        32
        load_default.publication_stream_id
      ≡ ok s.publication_stream_id
  pub subscription_stream_id :
      number_setting entries
        (text_of "subscription")
        (text_of "stream_id")
        32
        load_default.subscription_stream_id
      ≡ ok s.subscription_stream_id
  pub replay_stream_id :
      number_setting entries
        (text_of "replay")
        (text_of "stream_id")
        32
        load_default.replay_stream_id
      ≡ ok s.replay_stream_id
  pub idle_sleep_ms :
      number_setting entries
        (text_of "timeouts")
        (text_of "idle_sleep_ms")
        64
        load_default.idle_sleep_ms
      ≡ ok s.idle_sleep_ms
  pub message_timeout_ns :
      number_setting entries
        (text_of "timeouts")
        (text_of "message_timeout_ns")
        64
        load_default.message_timeout_ns
      ≡ ok s.message_timeout_ns

ok_injective : {A : Type 0} {a b : A} → ok a ≡ ok b → a ≡ b
ok_injective {a} e = ap (λ r. elim r [ ok x ↦ x | err x ↦ a ]) e

-- Five numbers that are read, where none is refused.
numbers_read :
    (p s r idle timeout : Result ℕ) (f : ℕ → ℕ → ℕ → ℕ → ℕ → AeronSettings) {t : AeronSettings}
    → (p >>= (λ a. s >>= (λ b. r >>= (λ c. idle >>= (λ d. timeout >>= (λ e. ok (f a b c d e)))))))
      ≡ ok t
    → (a b c d e : ℕ) × (p ≡ ok a)
      × (s ≡ ok b)
      × (r ≡ ok c)
      × (idle ≡ ok d)
      × (timeout ≡ ok e)
      × (f a b c d e ≡ t)
numbers_read (ok a) (ok b) (ok c) (ok d) (ok e) f h =
    (a, b, c, d, e, refl, refl, refl, refl, refl, ok_injective h)
numbers_read (ok a) (ok b) (ok c) (ok d) (err x) f h = absurd (ground arith)
numbers_read (ok a) (ok b) (ok c) (err x) timeout f h = absurd (ground arith)
numbers_read (ok a) (ok b) (err x) idle timeout f h = absurd (ground arith)
numbers_read (ok a) (err x) r idle timeout f h = absurd (ground arith)
numbers_read (err x) s r idle timeout f h = absurd (ground arith)

settings_of-IsFrom :
    (env : Environment) (entries : List Entry) {s : AeronSettings}
    → settings_of entries ≡ ok s
    → IsFrom env entries (override_from_environment env s)
unfolding settings_of settings_with override_from_environment
settings_of-IsFrom env entries {s} h =
    let k = numbers_read _ _ _ _ _ (settings_with entries) h in
    subst (λ t. IsFrom env entries (override_from_environment env t)) k.10
      (record {
        aeron_dir = overridden-text_setting env.aeron_dir entries _ _ _;
        request_channel = overridden-text_setting env.aeron_archive_control entries _ _ _;
        response_channel = overridden-text_setting none entries _ _ _;
        publication_channel = overridden-text_setting env.aeron_publication_channel entries _ _ _;
        subscription_channel = overridden-text_setting env.aeron_subscription_channel entries _ _ _;
        replay_channel = overridden-text_setting none entries _ _ _;
        publication_stream_id = k.5;
        subscription_stream_id = k.6;
        replay_stream_id = k.7;
        idle_sleep_ms = k.8;
        message_timeout_ns = k.9;
      })

unless_refused-ok :
    (refusal : Option Text) (t : AeronSettings) {s : AeronSettings}
    → unless_refused refusal t ≡ ok s
    → (refusal ≡ none) × (t ≡ s)
unfolding unless_refused
unless_refused-ok none t e = (refl, ok_injective e)
unless_refused-ok (some message) t e = absurd (ground arith)

-- Where reading, overriding and validating end well.
all_well :
    (env : Environment) (r : Result AeronSettings) {s : AeronSettings}
    → (r >>= (λ t. validated (override_from_environment env t))) ≡ ok s
    → (t : AeronSettings) × (r ≡ ok t)
      × (override_from_environment env t ≡ s)
      × (validate (override_from_environment env t) ≡ none)
unfolding validated
all_well env (err x) e = absurd (ground arith)
all_well env (ok t) e =
    let u = override_from_environment env t in
    let k = unless_refused-ok (validate u) u e in (t, refl, k.1, k.0)

-- Where a file loads, its entries were read, the settings are usable, and each text is the first
-- that is there: the environment's if it is not empty, the file's, the default; the response
-- channel, the replay channel and the numbers are the file's or the default, and the file's
-- numbers parse.
pub load_from_file-IsFrom :
    (env : Environment) (content : Text) {s : AeronSettings}
    → load_from_file env (some content) ≡ ok s
    → (entries : List Entry) × (parse_ini (some content) ≡ some entries)
      × IsFrom env entries s
      × IsUsable s
unfolding load_from_file parse_ini
load_from_file-IsFrom env content {s} h =
    let entries = (read_lines (record { current_section = []; result = [] }) [] content).result in
    let k = all_well env (settings_of entries) h in
    (
      entries,
      refl,
      subst (IsFrom env entries) k.2 (settings_of-IsFrom env entries k.1),
      subst IsUsable k.2 (validate-IsUsable _ k.3),
    )
