-- ===== src/AeronPublisher/Skipped.antt =====
-- Messages that Aeron does not take, as the subscriber sees them.
use aeron_archive_replay.Base.{
  ℕ, ◌+◌, ◌^◌, ◌<◌, ◌≤◌, ◌≡◌, ◌≢◌, ◌↔◌, ap, sym, ◌∙◌, subst, true, false, List, [], ◌∷◌, map,
  length, slt, add64, if_true, if_false, if_same, arith,
}
use aeron_archive_replay.AeronSubscriber.{AeronSubscriber}
use aeron_archive_replay.AeronSubscriber.Tracking.{check_for_gaps}
use aeron_archive_replay.AeronSubscriber.Gaps.{check_for_gaps_iff}
use aeron_archive_replay.AeronPublisher.{AeronPublisher, publish}
use aeron_archive_replay.AeronPublisher.Running.{
  Run, Tick, publishing, after_publish, publish_turn, turn, run,
}

-- Aeron takes nothing in these turns.
abbrev pub AreRefused : List Tick → Type 0
AreRefused [] = Unit
AreRefused (t ∷ ticks) = ((bytes : List ℕ) → slt 0 (t.offer bytes) ≡ false) × AreRefused ticks

publish-refused :
    (s : AeronPublisher) (offer : List ℕ → ℕ) (buffer : List ℕ) (n : ℕ)
    → ((bytes : List ℕ) → slt 0 (offer bytes) ≡ false)
    → publish s offer buffer n ≡ (false, s)
unfolding publish
publish-refused s offer buffer n h = if_same _ (if_false _ (h _))

publish_turn-refused :
    (r : Run) (t : Tick)
    → r.publisher.running ≡ true
    → ((bytes : List ℕ) → slt 0 (t.offer bytes) ≡ false)
    → publish_turn r t ≡ record r { sequence_number = add64 r.sequence_number 1 }
unfolding publish_turn after_publish
publish_turn-refused r t on h =
    if_true _ on ∙ ap (after_publish r _) (publish-refused r.publisher t.offer _ _ h)

run-refused :
    (ticks : List Tick) (r : Run)
    → r.publisher.running ≡ true
    → AreRefused ticks
    → r.sequence_number + length ticks < 2 ^ 64
    → run r (map publishing ticks) ≡ record r { sequence_number = r.sequence_number + length ticks }
unfolding run turn
run-refused [] r on h fits = ap (λ n. record r { sequence_number = n }) (omega arith)
run-refused (t ∷ ticks) r on h fits =
    ap (λ q. run q (map publishing ticks)) (publish_turn-refused r t on h.0)
    ∙ run-refused ticks (record r { sequence_number = add64 r.sequence_number 1 }) on h.1
        (omega arith)
    ∙ ap (λ n. record r { sequence_number = n }) (omega arith)

-- After turns of a running publisher in which Aeron takes nothing, the stream is as it was, and a
-- subscriber that expects the publisher's next number reports a gap at the next message exactly
-- where there were such turns, and no more of them than its tolerance. The numbers stay below 2 ^
-- 63, and the expected one is not 0.
pub check_for_gaps-run :
    (s : AeronSubscriber) (r : Run) (ticks : List Tick)
    → r.publisher.running ≡ true
    → AreRefused ticks
    → r.sequence_number + length ticks < 2 ^ 63
    → s.config.max_gap_tolerance < 2 ^ 63
    → s.expected_sequence ≡ r.sequence_number
    → s.expected_sequence ≢ 0
    → let q = run r (map publishing ticks) in
      (q.sent ≡ r.sent)
      × (((check_for_gaps s q.sequence_number).0 ≡ true)
          ↔ ((0 < length ticks) × (length ticks ≤ s.config.max_gap_tolerance)))
check_for_gaps-run s r ticks on h fits ht expects ne =
    let same = run-refused ticks r on h (omega arith) in
    let k =
      check_for_gaps_iff s (r.sequence_number + length ticks) ne (omega (arith, expects)) fits ht in
    (
      ap (λ q. q.sent) same,
      subst
          (λ n.
            ((check_for_gaps s n).0 ≡ true)
            ↔ ((0 < length ticks) × (length ticks ≤ s.config.max_gap_tolerance)))
          (sym (ap (λ q. q.sequence_number) same))
          (
            λ e. (omega (arith, expects, (k.0 e).0), omega (arith, expects, (k.0 e).1)),
            λ p. k.1 (omega (arith, expects, p.0), omega (arith, expects, p.1)),
          ),
    )
