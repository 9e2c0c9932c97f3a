-- ===== src/V1/Analyzer/Slots.antt =====
-- The times of a pattern that stands on slots of 15 minutes.
use Prim.Native.Nat.{min}
use smart_hpa.Prelude.{ℕ, ◌+◌, ◌*◌, ◌≤◌, ◌<◌, ◌≡◌, arith}
use smart_hpa.V1.Analyzer.{slot_times}

-- The minutes since midnight.
abbrev pub minutes : ℕ × ℕ → ℕ
minutes t = t.0 * 60 + t.1

-- Slots of a day give a start at the first minute of the first slot, and an end at the first minute
-- behind the last slot, or at the last minute of the day; the end is behind the start, and its hour and
-- minute are those of a clock.
pub slot_times_lem :
    (a b : ℕ)
    → a ≤ b
    → b < 96
    → (minutes (slot_times a b).0 ≡ 15 * a)
      × (minutes (slot_times a b).1 ≡ min (15 * (b + 1)) 1439)
      × (minutes (slot_times a b).0 < minutes (slot_times a b).1)
      × ((slot_times a b).1.0 < 24)
      × ((slot_times a b).1.1 < 60)
unfolding slot_times
slot_times_lem a b le lt = ground arith
