-- ===== src/V2/Pipeline/Night.antt =====
-- With the default configuration, the off-peak pattern of the model never becomes a trigger where the
-- model also finds the night pattern.
use mathlib.Core.Path.{subst}
use smart_hpa.Prelude.{
  ◌≡◌, ◌≢◌, refl, sym, ap, ◌∙◌, inl, inr, List, [], ◌∷◌, All, Any, All-imp, Any-and, String, ok,
  range,
}
use smart_hpa.Float.{Float}
use smart_hpa.V2.Config.{PatternResult, TriggerConfig, model_config, night, off_peak}
use smart_hpa.V2.Data.{ReplicaMetrics, ProcessedData}
use smart_hpa.V2.Model.Detectors.{hours_of, days_of}
use smart_hpa.V2.Model.Patterns.{IsInferred, infer_lem}
use smart_hpa.V2.Postprocessor.{window, process}
use smart_hpa.V2.Postprocessor.Overlap.{SpansDay, night_hides_off_peak}
use smart_hpa.V2.Model.{infer}
use smart_hpa.V2.Pipeline.{Pipeline, run}
use smart_hpa.V2.Pipeline.Stages.{run_inv}

window_night :
    {F : Type 0} (f : Float F) → window (hours_of ⦃f = f⦄ (model_config ⦃f = f⦄) night) ≡ ok (0, 23)
unfolding window model_config
window_night f = refl

window_off_peak :
    {F : Type 0} (f : Float F)
    → window (hours_of ⦃f = f⦄ (model_config ⦃f = f⦄) off_peak) ≡ ok (0, 23)
unfolding window model_config
window_off_peak f = refl

module _ {F : Type 0} ⦃f : Float F⦄ (timezone : String) where
  night_SpansDay :
      (p : PatternResult F)
      → IsInferred model_config p
      → p.pattern_type ≡ night
      → SpansDay model_config timezone (range 0 5) p
  night_SpansDay p i e = (
    ap window (i.detected_as.hours_are ∙ ap (hours_of model_config) e) ∙ window_night f,
    i.detected_as.days_are ∙ ap (days_of model_config) e,
  )

  off_peak_SpansDay :
      (p : PatternResult F)
      → IsInferred model_config p
      → p.pattern_type ≡ off_peak
      → SpansDay model_config timezone (range 0 5) p
  off_peak_SpansDay p i e = (
    ap window (i.detected_as.hours_are ∙ ap (hours_of model_config) e) ∙ window_off_peak f,
    i.detected_as.days_are ∙ ap (days_of model_config) e,
  )

  -- `process` on patterns of the model that hold a night pattern returns no off-peak trigger.
  process_night :
      (ps : List (PatternResult F)) (d : ProcessedData F) (ts : List (TriggerConfig F))
      → All (IsInferred model_config) ps
      → process model_config timezone ps d ≡ ok ts
      → Any (λ p. p.pattern_type ≡ night) ps
      → All (λ t. t.trigger_type ≢ off_peak) ts
  process_night [] d ts i e a = elim a [ ]
  process_night (p ∷ ps) d ts i e a =
      night_hides_off_peak model_config timezone (range 0 5) p ps d ts e
        (Any-and (λ q iq eq. (eq, night_SpansDay q iq eq)) (p ∷ ps) i a)
        (All-imp (λ q iq. off_peak_SpansDay q iq) (p ∷ ps) i)

module _ {F : Type 0} ⦃f : Float F⦄ where
  -- With the default configuration, if a run returns triggers and the patterns that it has stored hold a
  -- night pattern, none of the triggers is an off-peak one, also where an off-peak pattern is stored.
  pub run_hides_off_peak :
      (s : Pipeline F) (m : ReplicaMetrics F) (ts : List (TriggerConfig F)) (done : Pipeline F)
      → s.model ≡ model_config
      → run s (ok m) ≡ (ok ts, done)
      → Any (λ p. p.pattern_type ≡ night) done.patterns
      → All (λ t. t.trigger_type ≢ off_peak) ts
  run_hides_off_peak s m ts done default h nights = elim (run_inv s m ts done h) [
    | inl none_left ↦ subst (All (λ t. t.trigger_type ≢ off_peak)) (sym none_left.1) tt
    | inr r ↦
        process_night s.timezone r.patterns r.data_in ts
          (infer_lem model_config r.data_in r.patterns
            (subst (λ c. infer c r.data_in ≡ ok r.patterns) default r.inferred)).0
          (subst (λ c. process c s.timezone r.patterns r.data_in ≡ ok ts) default r.postprocessed)
          (subst (Any (λ p. p.pattern_type ≡ night)) (sym (ap (λ x. x.patterns) r.stored)) nights)
  ]
