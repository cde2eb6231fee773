-- ===== src/ConfigLoader/Validation.antt =====
-- What settings are that `validate` does not refuse.
use aeron_archive_replay.Base.{
  ℕ, zero, suc, ◌≡◌, refl, Bool, true, false, Option, none, some, List, [], ◌∷◌, Text, text_of,
  is_empty, starts_with, find, slt, get_or, if◌then◌else◌, arith,
}
use aeron_archive_replay.ConfigLoader.{
  AeronSettings, first_error, tests, test_prefix, validate_channel, validate_stream_id, validate,
}

abbrev pub aeron : Text
aeron = text_of "aeron:"

-- Settings that Aeron can be started with. The channel of the archive's responses is free.
pub record IsUsable (s : AeronSettings) : Type 0 where
  pub aeron_dir : is_empty s.aeron_dir ≡ false
  pub request_channel : starts_with aeron s.archive_control_request_channel ≡ true
  pub publication_channel : starts_with aeron s.publication_channel ≡ true
  pub subscription_channel : starts_with aeron s.subscription_channel ≡ true
  pub replay_channel : starts_with aeron s.replay_channel ≡ true
  pub publication_stream_id : slt 0 s.publication_stream_id ≡ true
  pub subscription_stream_id : slt 0 s.subscription_stream_id ≡ true
  pub replay_stream_id : slt 0 s.replay_stream_id ≡ true

first_error-get_or :
    (tests : List (Option Text)) → first_error tests ≡ none → (i : ℕ) → get_or tests i none ≡ none
unfolding first_error
first_error-get_or [] e i = refl
first_error-get_or (none ∷ tests) e zero = refl
first_error-get_or (none ∷ tests) e (suc i) = first_error-get_or tests e i
first_error-get_or (some message ∷ tests) e i = absurd (ground arith)

test_prefix-if :
    (b : Bool) (rest : Option ℕ) (name : Text)
    → test_prefix (if b then some 0 else elim rest [ none ↦ none | some i ↦ some (suc i) ]) name
      ≡ none
    → b ≡ true
unfolding test_prefix
test_prefix-if true rest name e = refl
test_prefix-if false none name e = absurd (ground arith)
test_prefix-if false (some i) name e = absurd (ground arith)

validate_channel-starts_with :
    (channel name : Text) → validate_channel channel name ≡ none → starts_with aeron channel ≡ true
unfolding validate_channel find
validate_channel-starts_with [] name e = absurd (ground arith)
validate_channel-starts_with (c ∷ t) name e =
    test_prefix-if (starts_with aeron (c ∷ t)) (find aeron t) name e

if_refused : (b : Bool) (message : Text) → (if b then none else some message) ≡ none → b ≡ true
if_refused true message e = refl
if_refused false message e = absurd (ground arith)

if_empty : (b : Bool) (message : Text) → (if b then some message else none) ≡ none → b ≡ false
if_empty true message e = absurd (ground arith)
if_empty false message e = refl

pub validate-IsUsable : (s : AeronSettings) → validate s ≡ none → IsUsable s
unfolding validate tests validate_stream_id
validate-IsUsable s e =
    let test = first_error-get_or (tests s) e in
    record {
      aeron_dir = if_empty (is_empty s.aeron_dir) (text_of "aeron_dir is empty") (test 0);
      request_channel =
          validate_channel-starts_with s.archive_control_request_channel
            (text_of "archive_control_request_channel") (test 1);
      publication_channel =
          validate_channel-starts_with s.publication_channel (text_of "publication_channel")
            (test 2);
      subscription_channel =
          validate_channel-starts_with s.subscription_channel (text_of "subscription_channel")
            (test 3);
      replay_channel =
          validate_channel-starts_with s.replay_channel (text_of "replay_channel") (test 4);
      publication_stream_id =
          if_refused (slt 0 s.publication_stream_id)
            (text_of "publication_stream_id must be positive") (test 5);
      subscription_stream_id =
          if_refused (slt 0 s.subscription_stream_id)
            (text_of "subscription_stream_id must be positive") (test 6);
      replay_stream_id =
          if_refused (slt 0 s.replay_stream_id) (text_of "replay_stream_id must be positive")
            (test 7);
    }
