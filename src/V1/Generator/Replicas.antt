-- ===== src/V1/Generator/Replicas.antt =====
-- The replica bounds of the suggestions.
use smart_hpa.Prelude.{◌≡◌, ℕ, suc, String, List, [], ◌∷◌, All, ok, Ensures, Ensures-bind}
use smart_hpa.Prelude.Int.{ℤ, pos, ◌≤ℤ◌, ◌<ℤ◌, int_laws}
use smart_hpa.Float.{Float}
use smart_hpa.V1.Config.{AnalysisConfig, TriggerSuggestion}
use smart_hpa.V1.Naming.{TimePattern}
use smart_hpa.V1.Generator.{calculate_replicas, suggest, suggest_from}

abbrev pub Scales : {F : Type 0} → TriggerSuggestion F → Type 0
Scales t = (pos 1 ≤ℤ t.min_replicas) × (t.min_replicas <ℤ t.max_replicas)

module _ {F : Type 0} ⦃f : Float F⦄ where
  -- If the conversion of a pattern's replicas returns, the minimum is at least 1 and at least the
  -- truncated average less the buffer, and the maximum exceeds the minimum and is at least the truncated
  -- peak with the buffer.
  pub calculate_replicas_bounds :
      (config : AnalysisConfig F) (p : TimePattern F) (r : ℤ × ℤ)
      → calculate_replicas config p ≡ ok r
      → (low high : ℤ)
      → f.int (f.mul p.avg_replicas (f.sub (f.literal 1 0) config.replica_buffer_percent)) ≡ ok low
      → f.int
          (f.mul (f.of_int p.peak_replicas) (f.add (f.literal 1 0) config.replica_buffer_percent))
        ≡ ok high
      → (pos 1 ≤ℤ r.0) × (low ≤ℤ r.0) × (r.0 <ℤ r.1) × (high ≤ℤ r.1)
  unfolding calculate_replicas
  calculate_replicas_bounds config p r e low high a b = grind (int_laws)

  calculate_replicas-Ensures :
      (config : AnalysisConfig F) (p : TimePattern F)
      → Ensures (λ r. (pos 1 ≤ℤ r.0) × (r.0 <ℤ r.1)) (calculate_replicas config p)
  unfolding calculate_replicas
  calculate_replicas-Ensures config p = grind (int_laws)

  suggest-Scales :
      (config : AnalysisConfig F) (timezone : String) (i : ℕ) (p : TimePattern F)
      → Ensures Scales (suggest config timezone i p)
  unfolding suggest
  suggest-Scales config timezone i p =
      Ensures-bind (λ r. (pos 1 ≤ℤ r.0) × (r.0 <ℤ r.1)) Scales (calculate_replicas config p) _
        (calculate_replicas-Ensures config p) (λ r h. h)

  pub suggest_from-Scales :
      (config : AnalysisConfig F) (timezone : String) (i : ℕ) (ps : List (TimePattern F))
      → Ensures (All Scales) (suggest_from config timezone i ps)
  unfolding suggest_from
  suggest_from-Scales config timezone i [] = tt
  suggest_from-Scales config timezone i (p ∷ ps) =
      Ensures-bind Scales (All Scales) (suggest config timezone i p) _
        (suggest-Scales config timezone i p)
        λ s h.
          Ensures-bind (All Scales) (All Scales) (suggest_from config timezone (suc i) ps) _
            (suggest_from-Scales config timezone (suc i) ps) (λ rest k. (h, k))
