-- ===== src/AeronSubscriber/Defaults.antt =====
-- The subscriber that is built without a configuration.
use aeron_archive_replay.Base.{
  ℕ, ◌≡◌, refl, ap, ◌∙◌, Bool, true, false, not, ◌||◌, List, [], ◌∷◌, length, ◌==◌, if_true,
}
use aeron_archive_replay.AeronSubscriber.{AeronSubscriber, new, new_default}
use aeron_archive_replay.AeronSubscriber.Tracking.{is_duplicate, add_to_deduplication_buffer}
use aeron_archive_replay.AeronSubscriber.Window.{record_all}

empty_window :
    (s : AeronSubscriber)
    → length s.duplicate_buffer ≡ 0
    → (not s.config.duplicate_check_enabled || length s.duplicate_buffer == 0) ≡ true
empty_window s h = rw h (closed s.config.duplicate_check_enabled)
  where
    closed : (b : Bool) → (not b || true) ≡ true
    closed true = refl
    closed false = refl

nothing_added :
    (ns : List ℕ) (s : AeronSubscriber) → length s.duplicate_buffer ≡ 0 → record_all s ns ≡ s
unfolding record_all add_to_deduplication_buffer
nothing_added [] s h = refl
nothing_added (n ∷ ns) s h =
    ap (λ t. record_all t ns) (if_true _ (empty_window s h)) ∙ nothing_added ns s h

not_found : (s : AeronSubscriber) (n : ℕ) → length s.duplicate_buffer ≡ 0 → is_duplicate s n ≡ false
unfolding is_duplicate
not_found s n h = if_true _ (empty_window s h)

-- The subscriber built without a configuration has duplicate checks enabled, and after any numbers
-- are recorded no number counts as a duplicate.
pub new_default-is_duplicate :
    (ns : List ℕ) (n : ℕ)
    → (new_default.config.duplicate_check_enabled ≡ true)
      × (is_duplicate (record_all new_default ns) n ≡ false)
unfolding new_default new
new_default-is_duplicate ns n = (
  refl,
  ap (λ t. is_duplicate t n) (nothing_added ns new_default refl) ∙ not_found new_default n refl,
)
