-- ===== src/AeronPublisher/Delivery.antt =====
-- The numbers of a stream in the subscriber's window of recent numbers.
use mathlib.Core.List.Memᴰ
use mathlib.Core.List.{Memᴰ}
use aeron_archive_replay.Base.{
  ℕ, zero, suc, ◌+◌, ◌-◌, ◌^◌, ◌<◌, ◌≤◌, ◌≡◌, ◌≢◌, inl, inr, refl, ap, sym, ◌∙◌, Bool, true, false,
  not, ◌||◌, List, [], ◌∷◌, map, length, replicate, length-replicate, minus_one, ◌==◌, Bool-cases,
  if_true, if_both, arith,
}
use aeron_archive_replay.MessageBuffer.{MessageBuffer, copy_from_aeron}
use aeron_archive_replay.AeronSubscriber.{SubscriberConfig, new}
use aeron_archive_replay.AeronSubscriber.Tracking.{contains, is_duplicate}
use aeron_archive_replay.AeronSubscriber.Window.{IsWindow, record_all, record_all-is_duplicate}
use aeron_archive_replay.AeronPublisher.Message.{message_header, message_bytes}
use aeron_archive_replay.AeronPublisher.Sending.{copy_from_aeron-message_bytes}
use aeron_archive_replay.AeronPublisher.Running.{Run, Turn, run}
use aeron_archive_replay.AeronPublisher.Stream.{
  IsStream, empty, sent, left_out, IsTimed, IsRunning, run-IsRunning,
}

-- The number that the fast path reads in a message that is copied into a buffer.
unfoldable pub number_of : MessageBuffer → List ℕ → ℕ
number_of b bytes = (copy_from_aeron b bytes).header.sequence_number

-- Each of the received messages is one of those sent; some may be lost, late or there twice.
abbrev pub AreSent : (received sent : List (List ℕ)) → Type 0
AreSent [] ms = Unit
AreSent (m ∷ received) ms = Memᴰ m ms × AreSent received ms

module _ (b : MessageBuffer) where
  number_of-message_bytes :
      (n event_time publish_time : ℕ)
      → n < 2 ^ 64
      → event_time < 2 ^ 64
      → publish_time < 2 ^ 64
      → number_of b (message_bytes n event_time publish_time) ≡ n
  unfolding number_of message_header
  number_of-message_bytes n e p hn he hp =
      ap (λ h. h.sequence_number) (copy_from_aeron-message_bytes n e p hn he hp b).0

  -- The numbers in a stream are those that are used.
  number_of-lt :
      {n : ℕ} {ms : List (List ℕ)} {m : List ℕ}
      → IsStream n ms
      → n < 2 ^ 64
      → Memᴰ m ms
      → number_of b m < n
  number_of-lt empty h k = absurd (Memᴰ.not-nil k)
  number_of-lt (sent {n} e p he hp s) h k = elim (Memᴰ.cases_cons k) [
    | inl same ↦
        omega (arith, ap (number_of b) same, number_of-message_bytes n e p (omega arith) he hp)
    | inr later ↦ omega (arith, number_of-lt s (omega arith) later)
  ]
  number_of-lt (left_out s) h k = omega (arith, number_of-lt s (omega arith) k)

  unused :
      {n : ℕ} {ms : List (List ℕ)} (received : List (List ℕ))
      → IsStream n ms
      → n < 2 ^ 64
      → AreSent received ms
      → (k : ℕ) → n ≤ k
      → Memᴰ k (map (number_of b) received)
      → k < k
  unused [] s h r k over m = absurd (Memᴰ.not-nil m)
  unused (x ∷ received) s h r k over m = elim (Memᴰ.cases_cons m) [
    | inl same ↦ omega (arith, same, number_of-lt s h r.0)
    | inr later ↦ unused received s h r.1 k over later
  ]

-- The empty slots of the window hold -1.
contains-replicate : (size n : ℕ) → n ≢ minus_one → contains (replicate size minus_one) n ≡ false
unfolding contains
contains-replicate zero n ne = refl
contains-replicate (suc size) n ne = ground (arith, contains-replicate size n ne)

module _ (c : SubscriberConfig) (enabled : c.duplicate_check_enabled ≡ true)
    (some_slots : 0 < c.duplicate_window_size) (fits : c.duplicate_window_size < 2 ^ 64) where
  new-window : (new c).duplicate_buffer ≡ replicate c.duplicate_window_size minus_one
  unfolding new
  new-window = if_true [] enabled

  new-IsWindow : IsWindow (new c)
  unfolding new
  new-IsWindow =
      let size = ap length new-window ∙ length-replicate c.duplicate_window_size minus_one in
      record { enabled = enabled; position = omega (arith, size); fits = omega (arith, size) }

  new-is_duplicate : (n : ℕ) → n ≢ minus_one → is_duplicate (new c) n ≡ false
  unfolding is_duplicate
  new-is_duplicate n ne =
      if_both (not (new c).config.duplicate_check_enabled || length (new c).duplicate_buffer == 0)
        (λ (d : Bool). d) refl
        (ap (λ xs. contains xs n) new-window ∙ contains-replicate c.duplicate_window_size n ne)

  -- The next message of a running publisher, copied into a buffer, is no duplicate for a new
  -- subscriber that checks for them and has recorded any messages of the stream so far, in any
  -- order, with losses and repetitions. The turns and the numbers used before are together fewer
  -- than 2 ^ 64 - 1, times have 64 bits, and the window has a slot and fewer than 2 ^ 64.
  pub is_duplicate-run :
      (b : MessageBuffer) (turns : List Turn) {used : ℕ} (r : Run) (received : List (List ℕ))
      (event_time publish_time : ℕ)
      → IsRunning used r
      → IsTimed turns
      → used + length turns < 2 ^ 64 - 1
      → AreSent received (run r turns).sent
      → event_time < 2 ^ 64
      → publish_time < 2 ^ 64
      → let next = message_bytes (run r turns).sequence_number event_time publish_time in
        is_duplicate (record_all (new c) (map (number_of b) received)) (number_of b next) ≡ false
  is_duplicate-run b turns r received e p i timed h are he hp =
      let q = run r turns in
      let k = run-IsRunning turns r i timed (omega arith) in
      let n = q.sequence_number in
      let number : number_of b (message_bytes n e p) ≡ n =
        number_of-message_bytes b n e p (omega (arith, k.used)) he hp in
      let s = record_all (new c) (map (number_of b) received) in
      ap (is_duplicate s) number ∙ elim (Bool-cases (is_duplicate s n)) [
        | inr other ↦ other
        | inl found ↦
            elim (record_all-is_duplicate (map (number_of b) received) n new-IsWindow found) [
              | inl old ↦ absurd (
                  omega (
                    arith,
                    unused b received k.stream (omega (arith, k.used)) are n (omega arith) old,
                  ))
              | inr before ↦ absurd (
                  let new_one = sym (new-is_duplicate n (omega (arith, k.used))) ∙ before in
                  ground arith)
            ]
      ]
