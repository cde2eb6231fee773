-- ===== src/RecordingController/Stopping.antt =====
-- From the start of a recording to its stop.
use aeron_archive_replay.Base.{
  ℕ, ◌≡◌, refl, ap, ◌∙◌, Bool, true, false, not, ◌&&◌, List, [], ◌∷◌, ◌==◌, if◌then◌else◌, if_false,
  minus_one, Text,
}
use aeron_archive_replay.RecordingController.{
  RecordingController, Descriptor, Answers, subscribed, is_recording, check_existing_recording,
  each, find_recording_id, begin_recording, start_recording, stop_recording,
}
use aeron_archive_replay.RecordingController.Lifecycle.{
  request, request-find_recording_id, start_recording-is_recording,
}

-- No recording of the stream is on.
abbrev pub AreStopped : ℕ → List Descriptor → Type 0
AreStopped stream_id [] = Unit
AreStopped stream_id (d ∷ ds) =
    ((d.stream_id == stream_id && d.stop_timestamp == 0) ≡ false) × AreStopped stream_id ds

each-AreStopped :
    (c : RecordingController) (ds : List Descriptor)
    → AreStopped c.stream_id ds
    → each check_existing_recording ds c ≡ c
unfolding each check_existing_recording
each-AreStopped c [] h = refl
each-AreStopped c (d ∷ ds) h =
    ap (each check_existing_recording ds) (if_false _ h.0) ∙ each-AreStopped c ds h.1

-- A first start, with what the archive answers to it.
module _ (c : RecordingController) (a : Answers) (id : ℕ) (off : is_recording c ≡ false)
    (quiet : AreStopped c.stream_id a.existing.descriptors) (lists : a.existing.throws ≡ false)
    (given : a.started ≡ subscribed id) where
  abbrev asked : RecordingController
  asked = record c { subscription_id = id }

  start_recording-begins : start_recording c a ≡ find_recording_id asked a
  unfolding start_recording begin_recording
  start_recording-begins =
      if_false (false, c) off
      ∙ if_false (false, each check_existing_recording a.existing.descriptors c) lists
      ∙ ap
          (λ (e : RecordingController).
            if is_recording e then (true, e) else begin_recording a.started e a)
          (each-AreStopped c a.existing.descriptors quiet)
      ∙ if_false (true, c) off
      ∙ ap (λ o. begin_recording o c a) given

  -- Where a controller is not recording, none of the listed recordings of its stream is on, the
  -- archive gives a subscription, and `startRecording` returns true, `stopRecording` asks the
  -- archive to stop this subscription: if the archive does, it returns true and neither identifier
  -- is set, else it returns false and changes nothing.
  pub stop_recording-start_recording :
      (stops : ℕ → Bool)
      → (start_recording c a).0 ≡ true
      → stop_recording (start_recording c a).1 stops ≡ (
          if stops id
          then (true, record c { recording_id = minus_one; subscription_id = minus_one })
          else (false, (start_recording c a).1))
  unfolding stop_recording
  stop_recording-start_recording stops done =
      let d = (start_recording c a).1 in
      let same : request d ≡ request asked =
        ap (λ o. request o.1) start_recording-begins ∙ request-find_recording_id asked a in
      let on : is_recording d ≡ true = start_recording-is_recording a c done in
      if_false (false, d) (ap not on)
      ∙ ap
          (λ (r : Text × ℕ × ℕ).
            if stops r.2
            then (
              true,
              record {
                channel = r.0;
                stream_id = r.1;
                recording_id = minus_one;
                subscription_id = minus_one;
              },
            )
            else (false, d))
          same
