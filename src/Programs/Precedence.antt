-- ===== src/Programs/Precedence.antt =====
-- Which of its sources a program takes a setting from.
use aeron_archive_replay.Base.{
  ◌≡◌, refl, ap, sym, ◌∙◌, Bool, true, false, Option, none, some, List, [], ◌∷◌, Text, is_empty,
  if_true, if_false, if◌then◌else◌, ◌==◌, minus_one, arith,
}
use aeron_archive_replay.ConfigLoader.{AeronSettings, load_default}
use aeron_archive_replay.ConfigLoader.Ini.{Entry, parse_ini}
use aeron_archive_replay.ConfigLoader.Loading.{
  Environment, Result, ok, err, cannot_open, load_from_file,
}
use aeron_archive_replay.ConfigLoader.Validation.{IsUsable}
use aeron_archive_replay.ConfigLoader.Sources.{IsFrom, first_of, load_from_file-IsFrom}
use aeron_archive_replay.AeronPublisher.{PublisherConfig}
use aeron_archive_replay.Programs.{
  Outcome, continues, exits, aborts, ◌>>=◌, Files, load_settings, or_exit, replaced,
}
use aeron_archive_replay.Programs.PublisherMain.{
  PublisherOption, PublisherOptions, no_options, parse_options, override_settings, publisher_config,
  configure,
}

continues_injective : {A : Type 0} {a b : A} → continues a ≡ continues b → a ≡ b
continues_injective {a} e = ap (λ r. elim r [ continues x ↦ x | exits code ↦ a | aborts ↦ a ]) e

bind_continues :
    {A B : Type 0} (r : Outcome A) (f : A → Outcome B) {b : B}
    → (r >>= f) ≡ continues b
    → (a : A) × (r ≡ continues a) × (f a ≡ continues b)
bind_continues (continues a) f e = (a, refl, e)
bind_continues (exits code) f e = absurd (ground arith)
bind_continues aborts f e = absurd (ground arith)

or_exit-continues :
    (r : Result AeronSettings) {s : AeronSettings} → or_exit r ≡ continues s → r ≡ ok s
unfolding or_exit
or_exit-continues (ok t) e = ap ok (continues_injective e)
or_exit-continues (err x) e = absurd (ground arith)

unless_exits :
    {A : Type 0} (b : Bool) {a c : A} → (if b then exits 0 else continues a) ≡ continues c → a ≡ c
unless_exits true e = absurd (ground arith)
unless_exits false e = continues_injective e

-- The configuration of a publisher that starts comes from its options over the settings.
publisher_configured :
    (env : Environment) (files : Files) (options : List PublisherOption) {c : PublisherConfig}
    → configure env files options ≡ continues c
    → (o : PublisherOptions) × (s : AeronSettings) × (parse_options no_options options
        ≡ continues o)
      × (load_settings env files o.config_file ≡ continues s)
      × (publisher_config o (override_settings o s) ≡ c)
unfolding configure
publisher_configured env files options e =
    let p = bind_continues (parse_options no_options options) _ e in
    let q = bind_continues (load_settings env files p.0.config_file) _ p.2 in
    (p.0, q.0, p.1, q.1, unless_exits p.0.print_config_only q.2)

replaced-first_of :
    (option setting : Text) → replaced option setting ≡ first_of (some option) none setting
unfolding replaced first_of
replaced-first_of [] setting = refl
replaced-first_of (c ∷ option) setting = refl

load_from_file-closed : (env : Environment) → load_from_file env none ≡ err cannot_open
unfolding load_from_file parse_ini
load_from_file-closed env = refl

-- The settings that `main` starts from, where a configuration file is named.
load_settings-IsFrom :
    (env : Environment) (files : Files) (config_file : Text) {s : AeronSettings}
    → is_empty config_file ≡ false
    → load_settings env files config_file ≡ continues s
    → (entries : List Entry) × (parse_ini (files config_file) ≡ some entries)
      × IsFrom env entries s
      × IsUsable s
unfolding load_settings
load_settings-IsFrom env files config_file {s} named e =
    by_content (files config_file)
      (or_exit-continues _ (sym (if_false (continues load_default) named) ∙ e))
  where
    by_content :
        (content : Option Text)
        → load_from_file env content ≡ ok s
        → (entries : List Entry) × (parse_ini content ≡ some entries)
          × IsFrom env entries s
          × IsUsable s
    by_content none h = absurd (let e = sym (load_from_file-closed env) ∙ h in ground arith)
    by_content (some content) h = load_from_file-IsFrom env content h

-- Where the publisher's program starts with a configuration file named, its directory, its
-- channels and its stream come from the options, else from the settings, and the settings are
-- usable and from the environment, the file and the defaults, in this order. CONFIG_GUIDE.md and
-- CHANGELOG.md have another order, with the environment before the options.
pub configure-IsFrom :
    (env : Environment) (files : Files) (options : List PublisherOption) {o : PublisherOptions}
    {c : PublisherConfig}
    → parse_options no_options options ≡ continues o
    → is_empty o.config_file ≡ false
    → configure env files options ≡ continues c
    → (s : AeronSettings) × (entries : List Entry) × (parse_ini (files o.config_file)
        ≡ some entries)
      × IsFrom env entries s
      × IsUsable s
      × (c.aeron_dir ≡ first_of (some o.override_aeron_dir) none s.aeron_dir)
      × (c.publication_channel ≡ first_of (some o.override_pub_channel) none s.publication_channel)
      × (c.archive_control_request_channel
          ≡ first_of (some o.override_archive_control) none s.archive_control_request_channel)
      × (c.archive_control_response_channel
          ≡ first_of (some o.override_archive_response) none s.archive_control_response_channel)
      × (c.publication_stream_id ≡ (
          if o.override_pub_stream_id == minus_one
          then s.publication_stream_id
          else o.override_pub_stream_id))
unfolding override_settings publisher_config
configure-IsFrom env files options {o} {c} parsed named e =
    let k = publisher_configured env files options e in
    let same : k.0 ≡ o = continues_injective (sym k.2 ∙ parsed) in
    let from =
      load_settings-IsFrom env files o.config_file named
        (ap (λ (p : PublisherOptions). load_settings env files p.config_file) (sym same) ∙ k.3) in
    let made : publisher_config o (override_settings o k.1) ≡ c =
      ap (λ p. publisher_config p (override_settings p k.1)) (sym same) ∙ k.4 in
    (
      k.1,
      from.0,
      from.1,
      from.2,
      from.3,
      ap (λ d. d.aeron_dir) (sym made) ∙ replaced-first_of o.override_aeron_dir k.1.aeron_dir,
      ap (λ d. d.publication_channel) (sym made)
          ∙ replaced-first_of o.override_pub_channel k.1.publication_channel,
      ap (λ d. d.archive_control_request_channel) (sym made)
          ∙ replaced-first_of o.override_archive_control k.1.archive_control_request_channel,
      ap (λ d. d.archive_control_response_channel) (sym made)
          ∙ replaced-first_of o.override_archive_response k.1.archive_control_response_channel,
      ap (λ d. d.publication_stream_id) (sym made),
    )

configure-unnamed :
    (env : Environment) (files : Files) (options : List PublisherOption) {o : PublisherOptions}
    → parse_options no_options options ≡ continues o
    → is_empty o.config_file ≡ true
    → configure env files options ≡ (
        if o.print_config_only
        then exits 0
        else continues (publisher_config o (override_settings o load_default)))
unfolding configure load_settings
configure-unnamed env files options {o} parsed unnamed =
    let rest = λ (p : PublisherOptions) (s : AeronSettings).
      if p.print_config_only
      then exits 0
      else continues (publisher_config p (override_settings p s)) in
    ap (λ r. r >>= (λ p. load_settings env files p.config_file >>= rest p)) parsed
    ∙ ap (λ r. r >>= rest o) (if_true (or_exit (load_from_file env (files o.config_file))) unnamed)

-- Where the options name no configuration file, the publisher's program is configured the same in
-- every environment and with any files.
pub configure-no_file :
    (env other : Environment) (files others : Files) (options : List PublisherOption)
    {o : PublisherOptions}
    → parse_options no_options options ≡ continues o
    → is_empty o.config_file ≡ true
    → configure env files options ≡ configure other others options
configure-no_file env other files others options parsed unnamed =
    configure-unnamed env files options parsed unnamed
    ∙ sym (configure-unnamed other others options parsed unnamed)
