-- ===== src/AeronSubscriber/Gaps.antt =====
-- What `checkForGaps` reports.
use aeron_archive_replay.Base.{
  ℕ, if◌then◌else◌, ◌+◌, ◌-◌, ◌^◌, ◌<◌, ◌≤◌, ◌≡◌, ◌≢◌, ◌↔◌, refl, sym, ◌∙◌, Bool, true, false, not,
  Bool-cases, inl, inr, if_both, slt, add64, sub64, ◌==◌, arith,
}
use aeron_archive_replay.AeronSubscriber.{AeronSubscriber}
use aeron_archive_replay.AeronSubscriber.Tracking.{check_for_gaps, add_to_deduplication_buffer}
use aeron_archive_replay.AeronSubscriber.FastPath.{track_message}

-- The report alone, from the expected number, the message's and the tolerance.
reports : ℕ → ℕ → ℕ → Bool
reports e n t =
    if e == 0
    then false
    else if slt n e
    then false
    else if slt e n
    then not (slt t (sub64 n e))
    else false

check_for_gaps-reports :
    (s : AeronSubscriber) (n : ℕ)
    → (check_for_gaps s n).0 ≡ reports s.expected_sequence n s.config.max_gap_tolerance
unfolding check_for_gaps reports
check_for_gaps-reports s n = elim (Bool-cases (s.expected_sequence == 0)) [
  | inl a ↦ rw a refl
  | inr a ↦ elim (Bool-cases (slt n s.expected_sequence)) [
    | inl b ↦ rw a (rw b refl)
    | inr b ↦ elim (Bool-cases (slt s.expected_sequence n)) [
      | inl c ↦ rw a (rw b (rw c refl))
      | inr c ↦ rw a (rw b (rw c refl))
    ]
  ]
]

reports_iff :
    (e n t : ℕ)
    → e ≢ 0
    → e < 2 ^ 63
    → n < 2 ^ 63
    → t < 2 ^ 63
    → (reports e n t ≡ true) ↔ ((e < n) × (n - e ≤ t))
unfolding reports
reports_iff e n t ne he hn ht = ground arith

-- Where a number is expected, and it, the message's number and the tolerance are not negative, a
-- gap is reported exactly where the message is ahead of what is expected by no more than the
-- tolerance.
pub check_for_gaps_iff :
    (s : AeronSubscriber) (n : ℕ)
    → s.expected_sequence ≢ 0
    → s.expected_sequence < 2 ^ 63
    → n < 2 ^ 63
    → s.config.max_gap_tolerance < 2 ^ 63
    → ((check_for_gaps s n).0 ≡ true)
      ↔ ((s.expected_sequence < n) × (n - s.expected_sequence ≤ s.config.max_gap_tolerance))
check_for_gaps_iff s n ne he hn ht =
    let k = reports_iff s.expected_sequence n s.config.max_gap_tolerance ne he hn ht in
    (λ e. k.0 (sym (check_for_gaps-reports s n) ∙ e), λ h. check_for_gaps-reports s n ∙ k.1 h)

track_message-expected :
    (s : AeronSubscriber) (m : ℕ) → m < 2 ^ 63 → (track_message s m).expected_sequence ≡ m + 1
unfolding track_message add_to_deduplication_buffer
track_message-expected s m h =
    let f = λ (t : AeronSubscriber). t.expected_sequence in
    let sum : add64 m 1 ≡ m + 1 = omega arith in
    if_both s.config.duplicate_check_enabled f (if_both _ f sum sum) sum

track_message-tolerance :
    (s : AeronSubscriber) (m : ℕ)
    → (track_message s m).config.max_gap_tolerance ≡ s.config.max_gap_tolerance
unfolding track_message add_to_deduplication_buffer
track_message-tolerance s m =
    let f = λ (t : AeronSubscriber). t.config.max_gap_tolerance in
    if_both s.config.duplicate_check_enabled f (if_both _ f refl refl) refl

-- After a message is accepted that is late by more than one, the message that was expected before
-- is reported as a gap, where it is ahead of the late one's successor by no more than the
-- tolerance and the numbers are not negative.
pub check_for_gaps-track_message :
    (s : AeronSubscriber) (late : ℕ)
    → s.expected_sequence < 2 ^ 63
    → s.config.max_gap_tolerance < 2 ^ 63
    → late + 1 < s.expected_sequence
    → s.expected_sequence - (late + 1) ≤ s.config.max_gap_tolerance
    → (check_for_gaps (track_message s late) s.expected_sequence).0 ≡ true
check_for_gaps-track_message s late he ht before near =
    let moved = track_message-expected s late (omega arith) in
    let same = track_message-tolerance s late in
    (check_for_gaps_iff (track_message s late) s.expected_sequence (omega (arith, moved))
        (omega (arith, moved)) he (omega (arith, same))).1
      (omega (arith, moved, before), omega (arith, moved, same, near))
