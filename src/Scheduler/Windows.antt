-- ===== src/Scheduler/Windows.antt =====
-- The time windows of internal/scheduler/scheduler.go as arcs of the day.
use smart_hpa.Prelude.{ℕ, ◌+◌, ◌-◌, ◌%◌, ◌<◌, ◌≡◌, ◌↔◌, true, arith}
use smart_hpa.Scheduler.{is_time_within_window}

-- For minutes of a day, a time is in a window, overnight or not, when it lies less far behind the
-- window's start than the window's end does, around the clock.
pub is_time_within_window_lem :
    (current start end : ℕ)
    → current < 1440
    → start < 1440
    → end < 1440
    → (is_time_within_window current start end ≡ true)
      ↔ ((current + 1440 - start) % 1440 < (end + 1440 - start) % 1440)
unfolding is_time_within_window
is_time_within_window_lem current start end a b c = ground arith
