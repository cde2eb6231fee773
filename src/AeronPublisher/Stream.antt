-- ===== src/AeronPublisher/Stream.antt =====
-- What the run of a publisher puts into the stream.
use aeron_archive_replay.Base.{
  ℕ, suc, ◌+◌, ◌^◌, ◌<◌, ◌≤◌, ◌≡◌, refl, ap, sym, ◌∙◌, subst, Bool, true, false, not, ◌||◌, List,
  [], ◌∷◌, length, take, take_all, length-append, if_both, Option-cases, Bool-cases, if_true,
  if_false, ◌⊎◌, inl, inr, slt, add64, same_text, text_of, arith,
}
use aeron_archive_replay.AeronPublisher.{
  AeronPublisher, publish, with_controller, start_recording, stop_recording,
}
use aeron_archive_replay.AeronPublisher.Message.{message_payload, message_header, message_bytes}
use aeron_archive_replay.RecordingController.{RecordingController}
use aeron_archive_replay.MessageHeader.{encode}
use aeron_archive_replay.MessageHeader.Layout.{length-encode}
use aeron_archive_replay.AeronPublisher.Sending.{
  message_header-IsPublished, message_header-message_length,
}
use aeron_archive_replay.AeronPublisher.Running.{
  Run, Tick, Command, Turn, publishing, commanding, after_publish, publish_turn, command_turn, turn,
  run,
}

-- The messages that stand in the stream, the newest first, when `n` numbers are used: each number is
-- sent once, with two times of 64 bits, or left out, and the numbers go up.
pub data IsStream : ℕ → List (List ℕ) → Type 0 where
  empty : IsStream 0 []
  sent :
      {n : ℕ} {ms : List (List ℕ)} (event_time publish_time : ℕ)
      → event_time < 2 ^ 64
      → publish_time < 2 ^ 64
      → IsStream n ms
      → IsStream (suc n) (message_bytes n event_time publish_time ∷ ms)
  left_out : {n : ℕ} {ms : List (List ℕ)} → IsStream n ms → IsStream (suc n) ms

-- The clock's answers are numbers of 64 bits.
abbrev pub IsTimed : List Turn → Type 0
IsTimed [] = Unit
IsTimed (publishing t ∷ turns) = (t.event_time < 2 ^ 64) × (t.publish_time < 2 ^ 64) × IsTimed turns
IsTimed (commanding c ∷ turns) = IsTimed turns

-- The stream of a run, which has used no more numbers than it had turns.
pub record IsRunning (turns : ℕ) (r : Run) : Type 0 where
  pub stream : IsStream r.sequence_number r.sent
  pub message_count : r.publisher.message_count ≡ length r.sent
  pub used : r.sequence_number ≤ turns
  pub taken : length r.sent ≤ r.sequence_number

with_controller-message_count :
    (s : AeronPublisher) (f : RecordingController → Bool × RecordingController)
    → (with_controller s f).1.message_count ≡ s.message_count
unfolding with_controller
with_controller-message_count s f = elim (Option-cases s.recording_controller) [
  | inl e ↦ rw e refl
  | inr p ↦ rw p.1 refl
]

-- A command leaves the stream and its counters.
abbrev counters : Run → ℕ × List (List ℕ) × ℕ
counters r = (r.sequence_number, r.sent, r.publisher.message_count)

command_turn-counters : (r : Run) (c : Command) → counters (command_turn r c) ≡ counters r
unfolding command_turn start_recording stop_recording
command_turn-counters r c = if_both (not r.publisher.running) counters refl (
    if_both (same_text c.word (text_of "start")) counters
      (ap (λ n. (r.sequence_number, r.sent, n)) (with_controller-message_count r.publisher _))
      (if_both (same_text c.word (text_of "stop")) counters
        (ap (λ n. (r.sequence_number, r.sent, n)) (with_controller-message_count r.publisher _))
        (if_both (same_text c.word (text_of "quit")) counters refl refl)))

pub take-message_bytes :
    (n event_time publish_time : ℕ)
    → n < 2 ^ 64
    → event_time < 2 ^ 64
    → publish_time < 2 ^ 64
    → take
        (message_header n event_time publish_time).message_length
        (message_bytes n event_time publish_time)
      ≡ message_bytes n event_time publish_time
unfolding message_bytes
take-message_bytes n e p hn he hp =
    let h = message_header n e p in
    take_all _ _ (
      omega (
        arith,
        length-append (encode h) (message_payload n),
        length-encode h (message_header-IsPublished n e p hn he hp).packed,
        message_header-message_length n e p,
      ))

IsRunning-command_turn :
    {turns : ℕ} (r : Run) (c : Command)
    → IsRunning turns r
    → IsRunning (suc turns) (command_turn r c)
IsRunning-command_turn {turns} r c i =
    let same = command_turn-counters r c in
    record {
      stream = subst (λ k. IsStream k.0 k.1) (sym same) i.stream;
      message_count = subst (λ k. k.2 ≡ length k.1) (sym same) i.message_count;
      used = subst (λ k. k.0 ≤ suc turns) (sym same) (omega (arith, i.used));
      taken = subst (λ k. length k.1 ≤ k.0) (sym same) i.taken;
    }

publish-cases :
    (s : AeronPublisher) (offer : List ℕ → ℕ) (buffer : List ℕ) (n : ℕ)
    → (publish s offer buffer n ≡ (false, s))
      ⊎ (publish s offer buffer n ≡ (true, record s { message_count = add64 s.message_count 1 }))
unfolding publish
publish-cases s offer buffer n = elim (Bool-cases (not s.running || not s.publication)) [
  | inl off ↦ inl (if_true _ off)
  | inr on ↦ elim (Bool-cases (slt 0 (offer (take n buffer)))) [
    | inl taken ↦ inr (if_false _ on ∙ if_true _ taken)
    | inr refused ↦ inl (if_false _ on ∙ if_false _ refused)
  ]
]

module _ {turns : ℕ} (r : Run) (t : Tick) (i : IsRunning turns r) (h : suc turns < 2 ^ 64)
    (he : t.event_time < 2 ^ 64) (hp : t.publish_time < 2 ^ 64) where
  abbrev whole : List ℕ
  whole = message_bytes r.sequence_number t.event_time t.publish_time

  abbrev size : ℕ
  size = (message_header r.sequence_number t.event_time t.publish_time).message_length

  counted : suc r.sequence_number ≡ add64 r.sequence_number 1
  counted = omega (arith, i.used)

  refused_stream : IsStream (add64 r.sequence_number 1) r.sent
  refused_stream = subst (λ n. IsStream n r.sent) counted (left_out i.stream)

  taken_stream : IsStream (add64 r.sequence_number 1) (take size whole ∷ r.sent)
  taken_stream =
      subst (λ (p : ℕ × List ℕ). IsStream p.0 (p.1 ∷ r.sent))
        (λ k. (
          counted k,
          sym
              (take-message_bytes r.sequence_number t.event_time t.publish_time
                (omega (arith, i.used)) he hp)
              k,
        ))
        (sent t.event_time t.publish_time he hp i.stream)

  IsRunning-publish_turn : IsRunning (suc turns) (publish_turn r t)
  unfolding publish_turn after_publish
  IsRunning-publish_turn = elim (Bool-cases r.publisher.running) [
    | inr off ↦ subst (IsRunning (suc turns)) (sym (if_false _ off)) (record {
      stream = i.stream;
      message_count = i.message_count;
      used = omega (arith, i.used);
      taken = i.taken;
    })
    | inl on ↦
        subst (IsRunning (suc turns)) (sym (if_true _ on))
          (elim (publish-cases r.publisher t.offer whole size) [
            | inl e ↦
                subst (λ o. IsRunning (suc turns) (after_publish r (take size whole) o)) (sym e)
                  (record {
                    stream = refused_stream;
                    message_count = i.message_count;
                    used = omega (arith, i.used);
                    taken = omega (arith, i.used, i.taken);
                  })
            | inr e ↦
                subst (λ o. IsRunning (suc turns) (after_publish r (take size whole) o)) (sym e)
                  (record {
                    stream = taken_stream;
                    message_count = omega (arith, i.message_count, i.taken, i.used);
                    used = omega (arith, i.used);
                    taken = omega (arith, i.used, i.taken);
                  })
          ])
  ]

-- From a run whose stream is in order, after any turns of the publishing thread and of the
-- commands, fewer than 2 ^ 64 in all and with times of 64 bits, the stream holds messages with the
-- numbers from 0 up to the counter, in order, each number sent once or left out, and the count of
-- messages is the length of the stream.
pub run-IsRunning :
    (turns : List Turn) {used : ℕ} (r : Run)
    → IsRunning used r
    → IsTimed turns
    → used + length turns < 2 ^ 64
    → IsRunning (used + length turns) (run r turns)
unfolding run turn
run-IsRunning [] {used} r i timed h = subst (λ n. IsRunning n r) (omega arith) i
run-IsRunning (publishing t ∷ turns) {used} r i timed h =
    subst (λ n. IsRunning n (run (publish_turn r t) turns)) (omega arith)
      (run-IsRunning turns (publish_turn r t)
        (IsRunning-publish_turn r t i (omega arith) timed.0 timed.1) timed.2 (omega arith))
run-IsRunning (commanding c ∷ turns) {used} r i timed h =
    subst (λ n. IsRunning n (run (command_turn r c) turns)) (omega arith)
      (run-IsRunning turns (command_turn r c) (IsRunning-command_turn r c i) timed (omega arith))
