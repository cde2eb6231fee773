-- ===== src/TestMessagePublisher/Counting.antt =====
-- The loop of the publisher for trials comes to its end.
use aeron_archive_replay.Base.{
  ℕ, suc, ◌+◌, ◌^◌, ◌<◌, ◌≤◌, ◌≡◌, refl, sym, subst, true, false, List, [], ◌∷◌, take, length,
  Bool-cases, inl, inr, ltb, ltb→lt, ltb→ge, slt, add64, if_true, if_false, arith,
}
use aeron_archive_replay.AeronPublisher.Message.{message_header, message_bytes}
use aeron_archive_replay.AeronPublisher.Running.{Tick}
use aeron_archive_replay.AeronPublisher.Stream.{IsStream, empty, sent, left_out, take-message_bytes}
use aeron_archive_replay.TestMessagePublisher.{TestPublisher, begin, publish_next, publish_all}

-- Among the turns are `n` in which Aeron takes whatever it is offered; times have 64 bits.
pub data Takes : ℕ → List Tick → Type 0 where
  no_more : Takes 0 []
  taken :
      {n : ℕ} {ticks : List Tick} (t : Tick)
      → t.event_time < 2 ^ 64
      → t.publish_time < 2 ^ 64
      → ((bytes : List ℕ) → slt 0 (t.offer bytes) ≡ true)
      → Takes n ticks
      → Takes (suc n) (t ∷ ticks)
  either :
      {n : ℕ} {ticks : List Tick} (t : Tick)
      → t.event_time < 2 ^ 64
      → t.publish_time < 2 ^ 64
      → Takes n ticks
      → Takes n (t ∷ ticks)

pub record InOrder (used : ℕ) (p : TestPublisher) : Type 0 where
  pub stream : IsStream p.sequence_number p.sent
  pub counted : p.sent_count ≡ length p.sent
  pub numbers : p.sequence_number ≤ used
  pub count : p.sent_count ≤ p.sequence_number

module _ {used : ℕ} (p : TestPublisher) (t : Tick) (i : InOrder used p) (h : suc used < 2 ^ 64)
    (he : t.event_time < 2 ^ 64) (hp : t.publish_time < 2 ^ 64) where
  abbrev message : List ℕ
  message =
      take (message_header p.sequence_number t.event_time t.publish_time).message_length
        (message_bytes p.sequence_number t.event_time t.publish_time)

  next : suc p.sequence_number ≡ add64 p.sequence_number 1
  next = omega (arith, i.numbers)

  whole : message_bytes p.sequence_number t.event_time t.publish_time ≡ message
  whole = sym (
      take-message_bytes p.sequence_number t.event_time t.publish_time (omega (arith, i.numbers)) he
        hp)

  publish_next-taken :
      slt 0 (t.offer message) ≡ true
      → InOrder (suc used) (publish_next p t) × ((publish_next p t).sent_count ≡ p.sent_count + 1)
  unfolding publish_next
  publish_next-taken e =
      subst (λ (q : TestPublisher). InOrder (suc used) q × (q.sent_count ≡ p.sent_count + 1))
        (sym (if_true _ e))
        (
          record {
            stream =
                subst (λ (k : ℕ × List ℕ). IsStream k.0 (k.1 ∷ p.sent)) (λ k. (next k, whole k))
                  (sent t.event_time t.publish_time he hp i.stream);
            counted = omega (arith, i.counted, i.count, i.numbers);
            numbers = omega (arith, i.numbers);
            count = omega (arith, i.count, i.numbers);
          },
          omega (arith, i.count, i.numbers),
        )

  publish_next-refused :
      slt 0 (t.offer message) ≡ false
      → InOrder (suc used) (publish_next p t) × ((publish_next p t).sent_count ≡ p.sent_count)
  unfolding publish_next
  publish_next-refused e =
      subst (λ (q : TestPublisher). InOrder (suc used) q × (q.sent_count ≡ p.sent_count))
        (sym (if_false _ e))
        (
          record {
            stream = subst (λ k. IsStream k p.sent) next (left_out i.stream);
            counted = i.counted;
            numbers = omega (arith, i.numbers);
            count = omega (arith, i.count, i.numbers);
          },
          refl,
        )

-- The count is reached, with what was sent in order.
abbrev Reaches : ℕ → TestPublisher → Type 0
Reaches message_count q =
    (q.sent_count ≡ message_count)
    × (length q.sent ≡ message_count)
    × IsStream q.sequence_number q.sent

stops :
    {used : ℕ} (message_count : ℕ) (p : TestPublisher) (ticks : List Tick)
    → InOrder used p
    → p.sent_count ≡ message_count
    → Reaches message_count (publish_all message_count p ticks)
unfolding publish_all
stops message_count p [] i e = (e, omega (arith, e, i.counted), i.stream)
stops message_count p (t ∷ ticks) i e =
    subst (Reaches message_count)
      (sym (
        if_false {b = slt p.sent_count message_count}
          (publish_all message_count (publish_next p t) ticks) (ground (arith, e))))
      (e, omega (arith, e, i.counted), i.stream)

-- A turn below the count goes on.
goes_on :
    (message_count : ℕ) (p : TestPublisher) (t : Tick) (ticks : List Tick)
    → p.sent_count < message_count
    → message_count < 2 ^ 63
    → publish_all message_count p (t ∷ ticks) ≡ publish_all message_count (publish_next p t) ticks
unfolding publish_all
goes_on message_count p t ticks less h =
    if_true {b = slt p.sent_count message_count} p (ground arith)

reaches :
    {n : ℕ} {ticks : List Tick} (k : Takes n ticks) (message_count : ℕ) (p : TestPublisher)
    {used : ℕ}
    → InOrder used p
    → message_count < 2 ^ 63
    → p.sent_count ≤ message_count
    → message_count ≤ p.sent_count + n
    → used + length ticks < 2 ^ 64
    → Reaches message_count (publish_all message_count p ticks)
reaches no_more message_count p i h low high fits = stops message_count p [] i (omega arith)
reaches (taken {n} {ticks} t he hp takes k) message_count p {used} i h low high fits =
    elim (Bool-cases (ltb p.sent_count message_count)) [
      | inr over ↦
          stops message_count p (t ∷ ticks) i
            (omega (arith, ltb→ge p.sent_count message_count over))
      | inl less ↦
          let below = ltb→lt p.sent_count message_count less in
          let q = publish_next-taken p t i (omega arith) he hp (takes _) in
          subst (Reaches message_count) (sym (goes_on message_count p t ticks below h)) (
            reaches k message_count (publish_next p t) q.0 h (omega (arith, q.1, below))
              (omega (arith, q.1)) (omega arith))
    ]
reaches (either {n} {ticks} t he hp k) message_count p {used} i h low high fits =
    elim (Bool-cases (ltb p.sent_count message_count)) [
      | inr over ↦
          stops message_count p (t ∷ ticks) i
            (omega (arith, ltb→ge p.sent_count message_count over))
      | inl less ↦
          let below = ltb→lt p.sent_count message_count less in
          subst (Reaches message_count) (sym (goes_on message_count p t ticks below h))
            (elim (Bool-cases (slt 0 (t.offer (message p t i (omega arith) he hp)))) [
              | inl e ↦
                  let q = publish_next-taken p t i (omega arith) he hp e in
                  reaches k message_count (publish_next p t) q.0 h (omega (arith, q.1, below))
                    (omega (arith, q.1)) (omega arith)
              | inr e ↦
                  let q = publish_next-refused p t i (omega arith) he hp e in
                  reaches k message_count (publish_next p t) q.0 h (omega (arith, q.1, below))
                    (omega (arith, q.1)) (omega arith)
            ])
    ]

-- The loop of the publisher for trials ends: among turns, fewer than 2 ^ 64, in at least as many
-- of which as messages are wanted Aeron takes what it is offered, the count is reached, with as
-- many messages in the stream, each with a number of its own, in order. The count is not negative,
-- and times have 64 bits.
pub publish_all-Takes :
    (message_count : ℕ) {n : ℕ} {ticks : List Tick}
    → Takes n ticks
    → message_count ≤ n
    → message_count < 2 ^ 63
    → length ticks < 2 ^ 64
    → let q = publish_all message_count begin ticks in
      (q.sent_count ≡ message_count)
      × (length q.sent ≡ message_count)
      × IsStream q.sequence_number q.sent
publish_all-Takes message_count k enough h fits =
    reaches k message_count begin {used = 0}
      (record { stream = empty; counted = refl; numbers = omega arith; count = omega arith }) h
      (omega arith) (omega (arith, enough)) (omega arith)
