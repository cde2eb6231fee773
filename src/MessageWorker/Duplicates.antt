-- ===== src/MessageWorker/Duplicates.antt =====
-- The set of sequence numbers that the worker has seen.
use aeron_archive_replay.Base.{
  ℕ, ◌<◌, ◌≡◌, ap, ◌∙◌, inl, inr, Bool, true, false, Bool-cases, List, ◌∷◌, length, ge→ltb, if_true,
  if_false, arith,
}
use aeron_archive_replay.MessageWorker.{MessageWorker, has_seen, seen_limit, check_duplicate}

has_seen_head : (n : ℕ) (xs : List ℕ) → has_seen (n ∷ xs) n ≡ true
unfolding has_seen
has_seen_head n xs = ground arith

module _ (w : MessageWorker) (n : ℕ) where
  seen_before : has_seen w.seen_sequences n ≡ true → check_duplicate w n ≡ (true, w)
  unfolding check_duplicate
  seen_before e = if_true _ e

  not_seen :
      has_seen w.seen_sequences n ≡ false
      → length w.seen_sequences < seen_limit
      → check_duplicate w n ≡ (false, record w { seen_sequences = n ∷ w.seen_sequences })
  unfolding check_duplicate
  not_seen e h =
      if_false _ e ∙ if_false _ (ge→ltb seen_limit (length (n ∷ w.seen_sequences)) (omega arith))

-- Where fewer numbers than the limit are stored, a number that is checked is a duplicate when it
-- is checked again at once.
pub check_duplicate-twice :
    (w : MessageWorker) (n : ℕ)
    → length w.seen_sequences < seen_limit
    → (check_duplicate (check_duplicate w n).1 n).0 ≡ true
check_duplicate-twice w n h = elim (Bool-cases (has_seen w.seen_sequences n)) [
  | inl e ↦ ap second (seen_before w n e) ∙ ap first (seen_before w n e)
  | inr e ↦
      ap second (not_seen w n e h)
      ∙ ap first (
          seen_before (record w { seen_sequences = n ∷ w.seen_sequences }) n
            (has_seen_head n w.seen_sequences))
]
  where
    first : Bool × MessageWorker → Bool
    first r = r.0

    second : Bool × MessageWorker → Bool
    second r = (check_duplicate r.1 n).0
