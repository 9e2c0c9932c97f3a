-- ===== src/Tests/Postprocessor.antt =====
-- The post-processor on three patterns.
use smart_hpa.Prelude.{ℕ, ◌≡◌, refl, ◌≢◌, [], ◌∷◌, All, Any, Pairs, ok, inl, inr, arith, Returns}
use smart_hpa.Prelude.Int.{pos, max_ℤ, ◌+ℤ◌, ◌≤ℤ◌}
use smart_hpa.V2.Config.{model_config, peak, off_peak, night, TriggerConfig, PatternResult}
use smart_hpa.V2.Postprocessor.{process, pattern_to_trigger, window, replica_range, window_key}
use smart_hpa.V2.Postprocessor.Replicas.{IsRunnable, replica_range_bounds}
use smart_hpa.V2.Postprocessor.Process.{process-IsRunnable, process_order}
use smart_hpa.V2.Postprocessor.Total.{process-Returns, IsConvertible}
use smart_hpa.V2.Postprocessor.Window.{window_wraps}
use smart_hpa.V2.Postprocessor.Dedup.{Ranked, Covers}
use smart_hpa.Tests.Sample.{
  hundredths, config, pattern, trigger, data_in, night_hours, off_peak_hours,
}

abbrev busy : PatternResult ℕ
busy = pattern peak (9 ∷ 10 ∷ []) 250 600

abbrev dark : PatternResult ℕ
dark = pattern night night_hours 100 150

abbrev slack : PatternResult ℕ
slack = pattern off_peak off_peak_hours 100 220

abbrev busy_trigger : TriggerConfig ℕ
busy_trigger = trigger "custom-late-morning-peak" peak 100 "09:00:00" "11:00:00" 2 9

abbrev dark_trigger : TriggerConfig ℕ
dark_trigger = trigger "custom-night-night" night 50 "00:00:00" "23:00:00" 1 3

abbrev slack_trigger : TriggerConfig ℕ
slack_trigger = trigger "custom-evening-off-peak" off_peak 40 "00:00:00" "23:00:00" 1 3

slack_runs : pattern_to_trigger config "UTC" slack ≡ ok slack_trigger
unfolding pattern_to_trigger max_ℤ ◌+ℤ◌ model_config
slack_runs = refl

process_runs :
    process config "UTC" (slack ∷ dark ∷ busy ∷ []) data_in ≡ ok (busy_trigger ∷ dark_trigger ∷ [])
unfolding process max_ℤ ◌+ℤ◌ model_config
process_runs = refl

process-IsRunnable_example : All IsRunnable (busy_trigger ∷ dark_trigger ∷ [])
process-IsRunnable_example =
    process-IsRunnable config "UTC" (slack ∷ dark ∷ busy ∷ []) data_in
      (busy_trigger ∷ dark_trigger ∷ []) process_runs

process_order_example :
    Ranked (busy_trigger ∷ dark_trigger ∷ [])
    × Pairs (λ t u. window_key u ≢ window_key t) (busy_trigger ∷ dark_trigger ∷ [])
    × All
        (λ q.
          (t : TriggerConfig ℕ) × (pattern_to_trigger config "UTC" q ≡ ok t)
          × Any (Covers t) (busy_trigger ∷ dark_trigger ∷ []))
        (slack ∷ dark ∷ busy ∷ [])
process_order_example =
    process_order config "UTC" slack (dark ∷ busy ∷ []) data_in (busy_trigger ∷ dark_trigger ∷ [])
      process_runs

convertible : All (IsConvertible config) (slack ∷ dark ∷ busy ∷ [])
unfolding model_config
convertible = (
  record {
    hours_active = λ e. cc;
    days_known = omega arith;
    low_returns = (pos 1, refl);
    high_returns = (pos 2, refl);
    burst_returns = (pos 3, refl);
  },
  (
    record {
      hours_active = λ e. cc;
      days_known = omega arith;
      low_returns = (pos 1, refl);
      high_returns = (pos 1, refl);
      burst_returns = (pos 2, refl);
    },
    (
      record {
        hours_active = λ e. cc;
        days_known = omega arith;
        low_returns = (pos 2, refl);
        high_returns = (pos 7, refl);
        burst_returns = (pos 9, refl);
      },
      tt,
    ),
  ),
)

process-Returns_example : Returns (process config "UTC" (slack ∷ dark ∷ busy ∷ []) data_in)
process-Returns_example = process-Returns config "UTC" slack (dark ∷ busy ∷ []) data_in convertible

replica_range_bounds_example :
    (pos 1 ≤ℤ pos 2) × (pos 2 ≤ℤ pos 2) × (pos 2 +ℤ pos 2 ≤ℤ pos 9) × (pos 7 ≤ℤ pos 9)
unfolding replica_range max_ℤ ◌+ℤ◌ model_config
replica_range_bounds_example =
    replica_range_bounds config busy (pos 2, pos 9) refl (pos 2) (pos 7) refl refl

window_wraps_example : window night_hours ≡ ok (0, 23)
window_wraps_example =
    window_wraps night_hours (omega arith) (inr (inr (inl refl))) (inr (inl refl))
