-- ===== src/V2/Postprocessor/Replicas.antt =====
-- The replica bounds of the triggers, on every branch of `_pattern_to_trigger` and of
-- `_default_triggers`.
use smart_hpa.Prelude.{◌≡◌, String, All, ok, Ensures, arith, >>=-eq-ok}
use smart_hpa.Prelude.Int.{ℤ, pos, ◌+ℤ◌, ◌≤ℤ◌, max_ℤ_bounds, half_ℤ_mono, int_laws}
use smart_hpa.Float.{Float}
use smart_hpa.V2.Config.{ModelConfig, PatternResult, TriggerConfig}
use smart_hpa.V2.Data.{ProcessedData}
use smart_hpa.V2.Postprocessor.{replica_range, pattern_to_trigger, default_triggers}

module _ {F : Type 0} ⦃f : Float F⦄ where
  -- If the conversion of a pattern's replicas returns, the minimum is at least 1 and at least the
  -- truncated minimum of the pattern, and the maximum exceeds the minimum by 2 or more and is at least
  -- the truncated maximum of the pattern with its buffer.
  pub replica_range_bounds :
      (config : ModelConfig F) (p : PatternResult F) (r : ℤ × ℤ)
      → replica_range config p ≡ ok r
      → (low high : ℤ) → f.int p.min_replicas ≡ ok low
      → f.int (f.mul p.max_replicas (f.add (f.literal 1 0) config.replica_buffer_percent)) ≡ ok high
      → (pos 1 ≤ℤ r.0) × (low ≤ℤ r.0) × (r.0 +ℤ pos 2 ≤ℤ r.1) × (high ≤ℤ r.1)
  unfolding replica_range
  replica_range_bounds config p r e low high a b = grind (int_laws)

  abbrev pub IsRunnable : TriggerConfig F → Type 0
  IsRunnable t = (pos 1 ≤ℤ t.min_replicas) × (t.min_replicas ≤ℤ t.max_replicas)

  replica_range-IsRunnable :
      (config : ModelConfig F) (p : PatternResult F) (r : ℤ × ℤ)
      → replica_range config p ≡ ok r
      → (pos 1 ≤ℤ r.0) × (r.0 ≤ℤ r.1)
  unfolding replica_range
  replica_range-IsRunnable config p r e = grind (int_laws)

  pub pattern_to_trigger-IsRunnable :
      (config : ModelConfig F) (timezone : String) (p : PatternResult F) (t : TriggerConfig F)
      → pattern_to_trigger config timezone p ≡ ok t
      → IsRunnable t
  unfolding pattern_to_trigger
  pattern_to_trigger-IsRunnable config timezone p t e =
      let (r, re, rest) = >>=-eq-ok (replica_range config p) _ e in
      ground (arith, replica_range-IsRunnable config p r re, rest)

  pub default_triggers-IsRunnable :
      (config : ModelConfig F) (timezone : String) (d : ProcessedData F)
      → Ensures (All IsRunnable) (default_triggers config timezone d)
  unfolding default_triggers
  default_triggers-IsRunnable config timezone d = grind (int_laws, half_ℤ_mono, max_ℤ_bounds)
