-- ===== src/RecordingController/Lifecycle.antt =====
-- What a start of a recording keeps, and what holds where it succeeds.
use mathlib.Core.List.{Memᴰ}
use mathlib.Core.List.Memᴰ
use aeron_archive_replay.Base.{
  ℕ, ◌≡◌, refl, sym, ap, ◌∙◌, subst, ◌⊎◌, inl, inr, Bool, true, false, ◌&&◌, Option, none, some,
  List, [], ◌∷◌, ◌==◌, if◌then◌else◌, if_true, if_false, if_both, if_holds, Bool-cases, Text,
  text_of, find, arith,
}
use aeron_archive_replay.RecordingController.{
  RecordingController, Descriptor, Answers, Started, subscribed, refused, is_recording,
  check_existing_recording, find_any_recording, recording_descriptor_consumer, each,
  find_recording_id, use_existing, if_exists, begin_recording, start_recording,
}

-- The second part of a result, where the first is true.
abbrev pub Succeeds : Bool × RecordingController → (RecordingController → Type 0) → Type 0
Succeeds o P = o.0 ≡ true → P o.1

pub fails : (c : RecordingController) (P : RecordingController → Type 0) → Succeeds (false, c) P
fails c P e = absurd (ground arith)

-- What a callback keeps, a listing keeps.
each_keeps :
    (P : RecordingController → Type 0)
    (callback : Descriptor → RecordingController → RecordingController) (ds : List Descriptor)
    → ((d : Descriptor) → Memᴰ d ds → (c : RecordingController) → P c → P (callback d c))
    → (c : RecordingController) → P c
    → P (each callback ds c)
unfolding each
each_keeps P callback [] keeps c p = p
each_keeps P callback (d ∷ ds) keeps c p =
    each_keeps P callback ds (λ e m. keeps e (Memᴰ.tail m)) (callback d c)
      (keeps d (Memᴰ.head refl) c p)

-- A callback that overwrites the same fields where a test holds that they do not decide.
module _ (test : Descriptor → RecordingController → Bool)
    (write : Descriptor → RecordingController → RecordingController)
    (same : (d e : Descriptor) (c : RecordingController) → test d (write e c) ≡ test d c)
    (over : (d e : Descriptor) (c : RecordingController) → write d (write e c) ≡ write d c) where
  abbrev callback : Descriptor → RecordingController → RecordingController
  callback d c = if test d c then write d c else c

  abbrev pub IsListed : List Descriptor → RecordingController → RecordingController → Type 0
  IsListed ds c e =
      (((d : Descriptor) → Memᴰ d ds → test d c ≡ false) × (e ≡ c))
      ⊎ ((d : Descriptor) × Memᴰ d ds × (test d c ≡ true) × (e ≡ write d c))

  pub each-IsListed :
      (ds : List Descriptor) (c : RecordingController) → IsListed ds c (each callback ds c)
  unfolding each
  each-IsListed [] c = inl (λ d m. absurd (Memᴰ.not-nil m), refl)
  each-IsListed (d ∷ ds) c = elim (Bool-cases (test d c)) [
    | inl t ↦
        let into : callback d c ≡ write d c = if_true c t in
        subst (IsListed (d ∷ ds) c) (sym (ap (each callback ds) into))
          (elim (each-IsListed ds (write d c)) [
            | inl k ↦ inr (d, Memᴰ.head refl, t, k.1)
            | inr k ↦ inr (k.0, Memᴰ.tail k.1, sym (same k.0 d c) ∙ k.2, k.3 ∙ over k.0 d c)
          ])
    | inr t ↦
        let kept : callback d c ≡ c = if_false (write d c) t in
        subst (IsListed (d ∷ ds) c) (sym (ap (each callback ds) kept)) (elim (each-IsListed ds c) [
          | inl k ↦ inl (
            λ e m. elim (Memᴰ.cases_cons m) [
              | inl h ↦ subst (λ e. test e c ≡ false) (sym h) t
              | inr h ↦ k.0 e h
            ],
            k.1,
          )
          | inr k ↦ inr (k.0, Memᴰ.tail k.1, k.2, k.3)
        ])
  ]

-- All but the recording's identifier.
abbrev pub request : RecordingController → Text × ℕ × ℕ
request c = (c.channel, c.stream_id, c.subscription_id)

-- The answer alone is looked at: of the two branches of a test, what both say of the request.
abbrev asks : Bool × RecordingController → Text × ℕ × ℕ
asks o = request o.1

module _ (c : RecordingController) (a : Answers) where
  abbrev first : RecordingController
  first = each recording_descriptor_consumer a.listed.descriptors c

  pub request-consumed :
      (ds : List Descriptor) (d : RecordingController)
      → request d ≡ request c
      → request (each recording_descriptor_consumer ds d) ≡ request c
  unfolding recording_descriptor_consumer
  request-consumed ds d e =
      each_keeps (λ d. request d ≡ request c) recording_descriptor_consumer ds
        (λ d m e k. if_both (d.stream_id == e.stream_id && d.stop_timestamp == 0) request k k) d e

  pub request-find_recording_id : request (find_recording_id c a).1 ≡ request c
  unfolding find_recording_id
  request-find_recording_id =
      let once = request-consumed a.listed.descriptors c refl in
      let twice = request-consumed a.listed_again.descriptors first once in
      if_both a.listed.throws asks once
        (if_both (is_recording first) asks once (if_both a.listed_again.throws asks twice twice))

  find_recording_id-is_recording : Succeeds (find_recording_id c a) (λ d. is_recording d ≡ true)
  unfolding find_recording_id
  find_recording_id-is_recording =
      let Q = λ (d : RecordingController). is_recording d ≡ true in
      let P = λ (o : Bool × RecordingController). Succeeds o Q in
      let second = each recording_descriptor_consumer a.listed_again.descriptors first in
      if_holds a.listed.throws {x = (false, first)} P (λ t. fails first Q)
        (λ t.
          if_holds (is_recording first) {x = (true, first)} P (λ u e. u)
            (λ u.
              if_holds a.listed_again.throws {x = (false, second)}
                {y = (is_recording second, second)} P (λ v. fails second Q) (λ v e. e)))

  abbrev found : RecordingController
  found = each find_any_recording a.listed.descriptors c

  use_existing-is_recording : Succeeds (use_existing c a) (λ d. is_recording d ≡ true)
  unfolding use_existing
  use_existing-is_recording =
      let Q = λ (d : RecordingController). is_recording d ≡ true in
      if_holds a.listed.throws {x = (false, found)} {y = (is_recording found, found)}
        (λ (o : Bool × RecordingController). Succeeds o Q) (λ t. fails found Q) (λ t e. e)

module _ (a : Answers) where
  abbrev IsOn : RecordingController → Type 0
  IsOn d = is_recording d ≡ true

  if_exists-IsOn :
      (position : Option ℕ) (e : RecordingController) → Succeeds (if_exists position e a) IsOn
  unfolding if_exists
  if_exists-IsOn none e = fails e IsOn
  if_exists-IsOn (some position) e = use_existing-is_recording e a

  begin_recording-IsOn :
      (o : Started) (e : RecordingController) → Succeeds (begin_recording o e a) IsOn
  unfolding begin_recording
  begin_recording-IsOn (subscribed id) e =
      find_recording_id-is_recording (record e { subscription_id = id }) a
  begin_recording-IsOn (refused message) e =
      if_exists-IsOn (find (text_of "recording exists") message) e

  pub start_recording-is_recording : (c : RecordingController) → Succeeds (start_recording c a) IsOn
  unfolding start_recording
  start_recording-is_recording c =
      let checked = each check_existing_recording a.existing.descriptors c in
      let begun = begin_recording a.started checked a in
      let P = λ (o : Bool × RecordingController). Succeeds o IsOn in
      if_holds (is_recording c) {x = (false, c)} P (λ t. fails c IsOn)
        (λ t.
          if_holds a.existing.throws {x = (false, checked)} P (λ u. fails checked IsOn)
            (λ u.
              if_holds (is_recording checked) {x = (true, checked)} {y = begun} P (λ v e. v)
                (λ v. begin_recording-IsOn a.started checked)))
