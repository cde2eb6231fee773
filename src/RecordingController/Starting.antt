-- ===== src/RecordingController/Starting.antt =====
-- Which identifiers a start of a recording leaves, and where they come from.
use mathlib.Core.List.{Memᴰ}
use aeron_archive_replay.Base.{
  ℕ, ◌≡◌, refl, sym, ap, ◌∙◌, subst, ◌⊎◌, inl, inr, Bool, true, false, not, ◌&&◌, Option, none,
  some, List, ◌==◌, if◌then◌else◌, if_true, if_false, if_holds, minus_one, Text, text_of, find,
  arith,
}
use aeron_archive_replay.RecordingController.{
  RecordingController, Descriptor, Answers, Started, subscribed, refused, is_recording,
  check_existing_recording, find_any_recording, recording_descriptor_consumer, each,
  find_recording_id, use_existing, if_exists, begin_recording, start_recording,
}
use aeron_archive_replay.RecordingController.Lifecycle.{
  Succeeds, fails, request, request-consumed, each-IsListed,
}

-- A recording of the controller's stream, and one that has not stopped.
abbrev pub is_of_stream : Descriptor → RecordingController → Bool
is_of_stream d c = d.stream_id == c.stream_id

abbrev pub is_on : Descriptor → RecordingController → Bool
is_on d c = is_of_stream d c && d.stop_timestamp == 0

-- The archive gives no recording the identifier that stands for none.
abbrev pub HaveIds : List Descriptor → Type 0
HaveIds ds = (d : Descriptor) → Memᴰ d ds → (d.recording_id == minus_one) ≡ false

abbrev pub AllOff : RecordingController → List Descriptor → Type 0
AllOff c ds = (d : Descriptor) → Memᴰ d ds → is_on d c ≡ false

-- What a start makes of a controller, by what the archive answers.
pub data IsStart (c : RecordingController) (a : Answers) : RecordingController → Type 0 where
  adopted :
      (d : Descriptor)
      → Memᴰ d a.existing.descriptors
      → is_on d c ≡ true
      → IsStart c a (record c { recording_id = d.recording_id; subscription_id = d.session_id })
  begun :
      (id : ℕ) (d : Descriptor)
      → AllOff c a.existing.descriptors
      → a.started ≡ subscribed id
      → Memᴰ d a.listed.descriptors ⊎ Memᴰ d a.listed_again.descriptors
      → is_on d c ≡ true
      → IsStart c a (record c { recording_id = d.recording_id; subscription_id = id })
  found :
      (message : Text) (position : ℕ) (d : Descriptor)
      → AllOff c a.existing.descriptors
      → a.started ≡ refused message
      → find (text_of "recording exists") message ≡ some position
      → Memᴰ d a.listed.descriptors
      → is_of_stream d c ≡ true
      → IsStart c a (record c { recording_id = d.recording_id })

module _ (c : RecordingController) (a : Answers) where
  -- A controller with no recording, before the archive's list is read again.
  module _ (e : RecordingController) (off : is_recording e ≡ false) where
    abbrev HasFound :
        (Descriptor → RecordingController → Bool) → List Descriptor → RecordingController → Type 0
    HasFound test ds r =
        (d : Descriptor) × Memᴰ d ds
        × (test d e ≡ true)
        × (r ≡ record e { recording_id = d.recording_id })

    consumed :
        (ds : List Descriptor) (s : RecordingController)
        → request s ≡ request e
        → is_recording s ≡ false
        → let r = each recording_descriptor_consumer ds s in
          is_recording r ≡ true → HasFound is_on ds r
    unfolding recording_descriptor_consumer
    consumed ds s q idle on =
        let write = λ (d : Descriptor) (s : RecordingController). record s {
          recording_id = d.recording_id;
        } in
        elim (each-IsListed is_on write (λ d e s. refl) (λ d e s. refl) ds s) [
          | inl k ↦ absurd (grind (arith, sym (ap is_recording k.1) ∙ on, idle))
          | inr k ↦ (
            k.0,
            k.1,
            sym (ap (λ (r : Text × ℕ × ℕ). k.0.stream_id == r.1 && k.0.stop_timestamp == 0) q)
                ∙ k.2,
            k.3
                ∙ ap
                    (λ (r : Text × ℕ × ℕ). record {
                      channel = r.0;
                      stream_id = r.1;
                      recording_id = k.0.recording_id;
                      subscription_id = r.2;
                    })
                    q,
          )
        ]

    find_recording_id-HasFound :
        Succeeds
          (find_recording_id e a)
          (λ r. HasFound is_on a.listed.descriptors r ⊎ HasFound is_on a.listed_again.descriptors r)
    unfolding find_recording_id
    find_recording_id-HasFound =
        let first = each recording_descriptor_consumer a.listed.descriptors e in
        let second = each recording_descriptor_consumer a.listed_again.descriptors first in
        let Q = λ (r : RecordingController).
          HasFound is_on a.listed.descriptors r ⊎ HasFound is_on a.listed_again.descriptors r in
        let P = λ (o : Bool × RecordingController). Succeeds o Q in
        if_holds a.listed.throws {x = (false, first)} P (λ t. fails first Q)
          (λ t.
            if_holds (is_recording first) {x = (true, first)} P
              (λ u v. inl (consumed a.listed.descriptors e refl off u))
              (λ u.
                if_holds a.listed_again.throws {x = (false, second)}
                  {y = (is_recording second, second)} P (λ v. fails second Q)
                  (λ v on. inr (
                    consumed a.listed_again.descriptors first
                      (request-consumed e a a.listed.descriptors e refl) u on))))

    use_existing-HasFound : Succeeds (use_existing e a) (HasFound is_of_stream a.listed.descriptors)
    unfolding use_existing find_any_recording
    use_existing-HasFound =
        let r = each find_any_recording a.listed.descriptors e in
        let Q = HasFound is_of_stream a.listed.descriptors in
        let write = λ (d : Descriptor) (s : RecordingController). record s {
          recording_id = d.recording_id;
        } in
        if_holds a.listed.throws {x = (false, r)} {y = (is_recording r, r)}
          (λ (o : Bool × RecordingController). Succeeds o Q) (λ t. fails r Q)
          (λ t on.
            elim (each-IsListed is_of_stream write (λ d e s. refl) (λ d e s. refl)
              a.listed.descriptors e) [
                | inl k ↦ absurd (grind (arith, sym (ap is_recording k.1) ∙ on, off))
                | inr k ↦ k
              ])

  module _ (off : is_recording c ≡ false) (none_on : AllOff c a.existing.descriptors) where
    if_exists-IsStart :
        (message : Text) (position : Option ℕ)
        → a.started ≡ refused message
        → find (text_of "recording exists") message ≡ position
        → Succeeds (if_exists position c a) (IsStart c a)
    unfolding if_exists
    if_exists-IsStart message none e h = fails c (IsStart c a)
    if_exists-IsStart message (some position) e h = λ done.
        let k = use_existing-HasFound c off done in
        subst (IsStart c a) (sym k.3) (found message position k.0 none_on e h k.1 k.2)

    begin_recording-IsStart :
        (o : Started) → a.started ≡ o → Succeeds (begin_recording o c a) (IsStart c a)
    unfolding begin_recording is_recording
    begin_recording-IsStart (subscribed id) e = λ done.
        elim (find_recording_id-HasFound (record c { subscription_id = id }) off done) [
          | inl k ↦ subst (IsStart c a) (sym k.3) (begun id k.0 none_on e (inl k.1) k.2)
          | inr k ↦ subst (IsStart c a) (sym k.3) (begun id k.0 none_on e (inr k.1) k.2)
        ]
    begin_recording-IsStart (refused message) e =
        if_exists-IsStart message (find (text_of "recording exists") message) e refl

  -- Where the archive lists no recording with the identifier -1 at first and `startRecording`
  -- returns true, the controller was not recording, and of its fields only the two identifiers may
  -- differ, in one of three ways. Either a recording of its stream that has not stopped was listed
  -- at first, and the two are that recording's identifier and session. Or none was, the archive
  -- gave a subscription, and they are the identifier of a recording of the stream that has not
  -- stopped, listed afterwards, and the subscription. Or none was, the archive refused with a
  -- message that contains 'recording exists', and the first is the identifier of a recording of
  -- the stream that was listed then, stopped or not, while the second is as it was.
  pub start_recording-IsStart :
      HaveIds a.existing.descriptors
      → (start_recording c a).0 ≡ true
      → (is_recording c ≡ false) × IsStart c a (start_recording c a).1
  unfolding start_recording check_existing_recording is_recording
  start_recording-IsStart ids =
      let checked = each check_existing_recording a.existing.descriptors c in
      let Q = λ (d : RecordingController). (is_recording c ≡ false) × IsStart c a d in
      let P = λ (o : Bool × RecordingController). Succeeds o Q in
      let rest = λ (e : RecordingController).
        if is_recording e then (true, e) else begin_recording a.started e a in
      let write = λ (d : Descriptor) (s : RecordingController). record s {
        recording_id = d.recording_id;
        subscription_id = d.session_id;
      } in
      if_holds (is_recording c) {x = (false, c)} P (λ t. fails c Q)
        (λ off.
          if_holds a.existing.throws {x = (false, checked)} P (λ t. fails checked Q)
            (λ t.
              elim (each-IsListed is_on write (λ d e s. refl) (λ d e s. refl) a.existing.descriptors
                c) [
                  | inl k ↦
                      subst (λ e. P (rest e)) (sym k.1)
                        (subst P (sym (if_false (true, c) off))
                          (λ done. (off, begin_recording-IsStart off k.0 a.started refl done)))
                  | inr k ↦
                      subst (λ e. P (rest e)) (sym k.3)
                        (subst P (sym (if_true _ (ap not (ids k.0 k.1))))
                          (λ done. (off, adopted k.0 k.1 k.2)))
                ]))
