-- ===== src/Programs/Latency.antt =====
-- The extremes that the monitoring thread keeps.
use mathlib.Core.List.Memᴰ
use mathlib.Core.List.{Memᴰ}
use aeron_archive_replay.Base.{
  ℕ, ◌/◌, ◌^◌, ◌≤◌, ◌<◌, ◌≡◌, inl, inr, sym, subst, List, [], ◌∷◌, if_true, if_false, lt→ltb,
  Bool-cases, ltb, add64, arith,
}
use aeron_archive_replay.SpscQueue.Stats.{MessageStats, latency_ns}
use aeron_archive_replay.Programs.Monitor.{Monitor, start, min64, max64, monitor, monitor_all}

abbrev pub us : MessageStats → ℕ
us s = latency_ns s / 1000

-- The extremes are not negative.
record IsMonitor (m : Monitor) : Type 0 where
  low : m.min_latency_us < 2 ^ 63
  high : m.max_latency_us < 2 ^ 63

us-lt : (s : MessageStats) → us s < 2 ^ 63
unfolding latency_ns
us-lt s = ground arith

min64_le :
    (a b : ℕ) → a < 2 ^ 63 → b < 2 ^ 63 → (min64 a b ≤ a) × (min64 a b ≤ b) × (min64 a b < 2 ^ 63)
min64_le a b ha hb = ground arith

le_max64 :
    (a b : ℕ) → a < 2 ^ 63 → b < 2 ^ 63 → (a ≤ max64 a b) × (b ≤ max64 a b) × (max64 a b < 2 ^ 63)
le_max64 a b ha hb = ground arith

-- A message widens the range, to its own latency if it has one.
record Widens (m n : Monitor) : Type 0 where
  still : IsMonitor n
  below : n.min_latency_us ≤ m.min_latency_us
  above : m.max_latency_us ≤ n.max_latency_us

monitor-measured :
    (m : Monitor) (s : MessageStats)
    → 0 < latency_ns s
    → monitor m s ≡ record m {
      counter = add64 m.counter 1;
      total_latency_us = add64 m.total_latency_us (us s);
      min_latency_us = min64 m.min_latency_us (us s);
      max_latency_us = max64 m.max_latency_us (us s);
    }
unfolding monitor
monitor-measured m s h = if_true _ (lt→ltb 0 (latency_ns s) h)

monitor-Widens : (m : Monitor) (s : MessageStats) → IsMonitor m → Widens m (monitor m s)
unfolding monitor
monitor-Widens m s i = elim (Bool-cases (ltb 0 (latency_ns s))) [
  | inl e ↦
      let lo = min64_le m.min_latency_us (us s) i.low (us-lt s) in
      let hi = le_max64 m.max_latency_us (us s) i.high (us-lt s) in
      subst (Widens m) (sym (if_true _ e))
        (record { still = record { low = lo.2; high = hi.2 }; below = lo.0; above = hi.0 })
  | inr e ↦ subst (Widens m) (sym (if_false _ e)) (record {
    still = record { low = i.low; high = i.high };
    below = omega arith;
    above = omega arith;
  })
]

monitor_all-Widens :
    (stats : List MessageStats) (m : Monitor) → IsMonitor m → Widens m (monitor_all m stats)
unfolding monitor_all
monitor_all-Widens [] m i = record { still = i; below = omega arith; above = omega arith }
monitor_all-Widens (s ∷ stats) m i =
    let once = monitor-Widens m s i in
    let rest = monitor_all-Widens stats (monitor m s) once.still in
    record {
      still = rest.still;
      below = omega (arith, once.below, rest.below);
      above = omega (arith, once.above, rest.above);
    }

-- A message with a latency is in the range of those after it.
abbrev InRange : Monitor → MessageStats → Type 0
InRange m s = (m.min_latency_us ≤ us s) × (us s ≤ m.max_latency_us)

monitor-InRange :
    (m : Monitor) (s : MessageStats) → IsMonitor m → 0 < latency_ns s → InRange (monitor m s) s
monitor-InRange m s i h =
    subst (λ n. InRange n s) (sym (monitor-measured m s h))
      (
        (min64_le m.min_latency_us (us s) i.low (us-lt s)).1,
        (le_max64 m.max_latency_us (us s) i.high (us-lt s)).1,
      )

monitor_all-InRange_from :
    (stats : List MessageStats) (m : Monitor) (s : MessageStats)
    → IsMonitor m
    → Memᴰ s stats
    → 0 < latency_ns s
    → InRange (monitor_all m stats) s
unfolding monitor_all
monitor_all-InRange_from [] m s i k h = absurd (Memᴰ.not-nil k)
monitor_all-InRange_from (t ∷ stats) m s i k h =
    let once = monitor-Widens m t i in
    let rest = monitor_all-Widens stats (monitor m t) once.still in
    elim (Memᴰ.cases_cons k) [
      | inl e ↦
          let here =
            subst (λ u. InRange (monitor m t) u) (sym e)
              (monitor-InRange m t i (subst (λ u. 0 < latency_ns u) e h)) in
          (omega (arith, rest.below, here.0), omega (arith, rest.above, here.1))
      | inr later ↦ monitor_all-InRange_from stats (monitor m t) s once.still later h
    ]

-- Of the messages that the monitoring thread has taken since its start, each whose latency is
-- known has one between the least and the greatest that are kept, in whole microseconds.
pub monitor_all-InRange :
    (stats : List MessageStats) (s : MessageStats)
    → Memᴰ s stats
    → 0 < latency_ns s
    → let m = monitor_all start stats in
      (m.min_latency_us ≤ latency_ns s / 1000) × (latency_ns s / 1000 ≤ m.max_latency_us)
monitor_all-InRange stats s =
    monitor_all-InRange_from stats start s (record { low = omega arith; high = omega arith })
