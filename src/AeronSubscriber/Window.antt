-- ===== src/AeronSubscriber/Window.antt =====
-- The ring of recent sequence numbers, which `isDuplicate` searches.
use mathlib.Core.List.{Memᴰ}
use aeron_archive_replay.Ring.Index.{mod_cases}
use aeron_archive_replay.Base.{
  ℕ, zero, suc, ◌+◌, ◌%◌, ◌^◌, ◌<◌, ◌≤◌, ◌≡◌, sym, ap, ◌∙◌, ◌⊎◌, inl, inr, true, false, not, ◌||◌,
  List, [], ◌∷◌, length, length-set, get_or, get_or-set_self, get_or-set_ne, set, add64, ◌==◌,
  if_false, arith,
}
use aeron_archive_replay.AeronSubscriber.{AeronSubscriber}
use aeron_archive_replay.AeronSubscriber.Tracking.{
  contains, is_duplicate, add_to_deduplication_buffer,
}

-- The numbers of accepted messages, in turn.
unfoldable pub record_all : AeronSubscriber → List ℕ → AeronSubscriber
record_all s [] = s
record_all s (n ∷ ns) = record_all (add_to_deduplication_buffer s n) ns

-- Duplicates are checked for, and the position is a slot of the ring.
pub record IsWindow (s : AeronSubscriber) : Type 0 where
  pub enabled : s.config.duplicate_check_enabled ≡ true
  pub position : s.duplicate_buffer_pos < length s.duplicate_buffer
  pub fits : length s.duplicate_buffer < 2 ^ 64

contains-set :
    (xs : List ℕ) (i m n : ℕ) → contains (set xs i m) n ≡ true → (m ≡ n) ⊎ (contains xs n ≡ true)
unfolding contains
contains-set [] i m n h = inr h
contains-set (x ∷ xs) zero m n h = ground arith
contains-set (x ∷ xs) (suc i) m n h = ground (arith, contains-set xs i m n)

contains-get_or : (xs : List ℕ) (i : ℕ) → i < length xs → contains xs (get_or xs i 0) ≡ true
unfolding contains
contains-get_or [] i h = absurd (omega arith)
contains-get_or (x ∷ xs) zero h = ground arith
contains-get_or (x ∷ xs) (suc i) h = ground (arith, contains-get_or xs i (omega arith))

module _ {s : AeronSubscriber} (w : IsWindow s) where
  window_open : (not s.config.duplicate_check_enabled || length s.duplicate_buffer == 0) ≡ false
  window_open = rw w.enabled (ground (arith, w.position))

  added :
      (n : ℕ)
      → add_to_deduplication_buffer s n ≡ record s {
        duplicate_buffer = set s.duplicate_buffer s.duplicate_buffer_pos n;
        duplicate_buffer_pos = add64 s.duplicate_buffer_pos 1 % length s.duplicate_buffer;
      }
  unfolding add_to_deduplication_buffer
  added n = if_false _ window_open

  searched : (n : ℕ) → is_duplicate s n ≡ contains s.duplicate_buffer n
  unfolding is_duplicate
  searched n = if_false _ window_open

  next_position :
      let next = add64 s.duplicate_buffer_pos 1 % length s.duplicate_buffer in
      (next ≡ s.duplicate_buffer_pos + 1) × (next < length s.duplicate_buffer)
      ⊎ (next ≡ 0) × (s.duplicate_buffer_pos + 1 ≡ length s.duplicate_buffer)
  next_position =
      elim (mod_cases (s.duplicate_buffer_pos + 1) (length s.duplicate_buffer)
        (omega (arith, w.position))) [
          | inl k ↦ inl (unwrapped ∙ k.1, omega (arith, unwrapped, k.0, k.1))
          | inr k ↦
              inr (omega (arith, unwrapped, k.0, k.1, w.position), omega (arith, k.0, w.position))
        ]
    where
      unwrapped :
          add64 s.duplicate_buffer_pos 1 % length s.duplicate_buffer
          ≡ (s.duplicate_buffer_pos + 1) % length s.duplicate_buffer
      unwrapped = ap (λ n. n % length s.duplicate_buffer) (omega (arith, w.position, w.fits))

  added-IsWindow : (n : ℕ) → IsWindow (add_to_deduplication_buffer s n)
  added-IsWindow n = rw (added n) (record {
    enabled = w.enabled;
    position = omega (arith, length-set s.duplicate_buffer s.duplicate_buffer_pos n, next_position);
    fits = omega (arith, length-set s.duplicate_buffer s.duplicate_buffer_pos n, w.fits);
  })

-- `n` stands in a slot that the position has passed `d` steps ago.
record Stands (s : AeronSubscriber) (slot n d : ℕ) : Type 0 where
  in_range : slot < length s.duplicate_buffer
  number : get_or s.duplicate_buffer slot 0 ≡ n
  passed : 0 < d
  ahead :
      (s.duplicate_buffer_pos ≡ slot + d)
      ⊎ (s.duplicate_buffer_pos + length s.duplicate_buffer ≡ slot + d)

just_added :
    {s : AeronSubscriber} (w : IsWindow s) (n : ℕ)
    → Stands (add_to_deduplication_buffer s n) s.duplicate_buffer_pos n 1
just_added {s} w n =
    let l = length-set s.duplicate_buffer s.duplicate_buffer_pos n in
    rw (added w n) (record {
      in_range = omega (arith, l, w.position);
      number = get_or-set_self s.duplicate_buffer s.duplicate_buffer_pos n 0 w.position;
      passed = omega arith;
      ahead = elim (next_position w) [ inl k ↦ inl k.0 | inr k ↦ inr (omega (arith, l, k.0, k.1)) ];
    })

one_more :
    {s : AeronSubscriber} (w : IsWindow s) {slot n d : ℕ} (m : ℕ)
    → Stands s slot n d
    → d < length s.duplicate_buffer
    → Stands (add_to_deduplication_buffer s m) slot n (d + 1)
one_more {s} w {slot} {n} {d} m k h =
    let l = length-set s.duplicate_buffer s.duplicate_buffer_pos m in
    rw (added w m) (record {
      in_range = omega (arith, l, k.in_range);
      number =
          get_or-set_ne s.duplicate_buffer s.duplicate_buffer_pos slot m 0
            (omega (arith, k.ahead, k.passed, k.in_range, h))
          ∙ k.number;
      passed = omega arith;
      ahead = elim (next_position w) [
        | inl j ↦ elim k.ahead [
          | inl a ↦ inl (omega (arith, j.0, a))
          | inr a ↦ inr (omega (arith, l, j.0, a))
        ]
        | inr j ↦ elim k.ahead [
          | inl a ↦ inr (omega (arith, l, j.0, j.1, a))
          | inr a ↦ absurd (omega (arith, a, j.1, k.in_range, h))
        ]
      ];
    })

found_after :
    (later : List ℕ) {s : AeronSubscriber} (w : IsWindow s) {slot n d : ℕ}
    → Stands s slot n d
    → d + length later ≤ length s.duplicate_buffer
    → is_duplicate (record_all s later) n ≡ true
unfolding record_all
found_after [] {s} w {slot} {n} k h =
    searched w n
    ∙ ap (contains s.duplicate_buffer) (sym k.number)
    ∙ contains-get_or s.duplicate_buffer slot k.in_range
found_after (m ∷ later) {s} w k h =
    found_after later (added-IsWindow w m) (one_more w m k (omega (arith, h))) (
      omega (
        arith,
        h,
        ap (λ (t : AeronSubscriber). length t.duplicate_buffer) (added w m),
        length-set s.duplicate_buffer s.duplicate_buffer_pos m,
      ))

-- With duplicates checked for, a number counts as a duplicate after it is recorded and fewer
-- further numbers than the window has slots are recorded.
pub is_duplicate-record_all :
    (n : ℕ) (later : List ℕ) {s : AeronSubscriber}
    → IsWindow s
    → length later < length s.duplicate_buffer
    → is_duplicate (record_all s (n ∷ later)) n ≡ true
unfolding record_all
is_duplicate-record_all n later {s} w h = found_after later (added-IsWindow w n) (just_added w n) (
    omega (
      arith,
      h,
      ap (λ (t : AeronSubscriber). length t.duplicate_buffer) (added w n),
      length-set s.duplicate_buffer s.duplicate_buffer_pos n,
    ))

-- With duplicates checked for, what counts as a duplicate after some numbers are recorded is one
-- of them or counted as a duplicate before.
pub record_all-is_duplicate :
    (ns : List ℕ) (n : ℕ) {s : AeronSubscriber}
    → IsWindow s
    → is_duplicate (record_all s ns) n ≡ true
    → Memᴰ n ns ⊎ (is_duplicate s n ≡ true)
unfolding record_all
record_all-is_duplicate [] n w e = inr e
record_all-is_duplicate (m ∷ ns) n {s} w e =
    elim (record_all-is_duplicate ns n (added-IsWindow w m) e) [
      | inl k ↦ inl (Memᴰ.tail k)
      | inr k ↦
          elim (contains-set s.duplicate_buffer s.duplicate_buffer_pos m n (
            sym (ap (λ (t : AeronSubscriber). contains t.duplicate_buffer n) (added w m))
            ∙ sym (searched (added-IsWindow w m) n)
            ∙ k)) [ inl j ↦ inl (Memᴰ.head (sym j)) | inr j ↦ inr (searched w n ∙ j) ]
    ]
