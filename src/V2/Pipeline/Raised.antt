-- ===== src/V2/Pipeline/Raised.antt =====
-- `run` where a stage raises.
use smart_hpa.Prelude.{
  Error, raise, false, ◌≡◌, refl, sym, ap, ◌⊎◌, inl, inr, List, [], some, Result, ok, Bool-cases,
}
use smart_hpa.Float.{Float}
use smart_hpa.V2.Config.{PatternResult, TriggerConfig}
use smart_hpa.V2.Data.{ReplicaMetrics, ProcessedData, is_empty}
use smart_hpa.V2.Preprocessor.{preprocess}
use smart_hpa.V2.Model.{infer}
use smart_hpa.V2.Postprocessor.{process}
use smart_hpa.V2.Pipeline.{Pipeline, run, run_triggers, run_patterns, run_processed}

module _ {F : Type 0} ⦃f : Float F⦄ where
  run_triggers_raised :
      (s : Pipeline F) (r : Result (List (TriggerConfig F))) (x : Error) (done : Pipeline F)
      → run_triggers s r ≡ (raise x, done)
      → s ≡ done
  unfolding run_triggers
  run_triggers_raised s (raise e) x done h = ap (λ p. p.1) h
  run_triggers_raised s (ok ts) x done h = cc

  run_patterns_raised :
      (s : Pipeline F) (d : ProcessedData F) (r : Result (List (PatternResult F))) (x : Error)
      (done : Pipeline F)
      → run_patterns s d r ≡ (raise x, done)
      → (s.metrics ≡ done.metrics) × (s.processed ≡ done.processed) × (s.triggers ≡ done.triggers)
  unfolding run_patterns
  run_patterns_raised s d (raise e) x done h =
      let same : s ≡ done = ap (λ p. p.1) h in
      (ap (λ t. t.metrics) same, ap (λ t. t.processed) same, ap (λ t. t.triggers) same)
  run_patterns_raised s d (ok ps) x done h =
      let same =
        run_triggers_raised (record s { patterns = ps }) (process s.model s.timezone ps d) x done
          h in
      (ap (λ t. t.metrics) same, ap (λ t. t.processed) same, ap (λ t. t.triggers) same)

  run_processed_raised :
      (s : Pipeline F) (r : Result (ProcessedData F)) (x : Error) (done : Pipeline F)
      → run_processed s r ≡ (raise x, done)
      → (s.metrics ≡ done.metrics) × (s.triggers ≡ done.triggers)
  unfolding run_processed
  run_processed_raised s (raise e) x done h =
      let same : s ≡ done = ap (λ p. p.1) h in (ap (λ t. t.metrics) same, ap (λ t. t.triggers) same)
  run_processed_raised s (ok d) x done h =
      let (m, p, t) =
        run_patterns_raised (record s { processed = some d }) d (infer s.model d) x done h in
      (m, t)

  stages_raised :
      (s : Pipeline F) (m : ReplicaMetrics F) (x : Error) (done : Pipeline F)
      → run s (ok m) ≡ (raise x, done)
      → (is_empty m ≡ false) × (done.metrics ≡ some m) × (done.triggers ≡ s.triggers)
  unfolding run
  stages_raised s m x done h = elim (Bool-cases (is_empty m)) [
    | inl e ↦
        let same : (ok [], record s { metrics = some m }) ≡ (raise x, done) = rw e at h in cc same
    | inr e ↦
        let (stored, kept) =
          run_processed_raised (record s { metrics = some m }) (preprocess (f.literal 30 1) m) x
            done (rw e at h) in
        (e, sym stored, sym kept)
  ]

  -- If a run raises, then either the fetcher raised the same, and nothing is stored; or it returned data
  -- that is not empty, which is stored, and the triggers stay those of the run before.
  pub run_raised :
      (s : Pipeline F) (r : Result (ReplicaMetrics F)) (x : Error) (done : Pipeline F)
      → run s r ≡ (raise x, done)
      → ((r ≡ raise x) × (done ≡ s))
        ⊎ ((m : ReplicaMetrics F) × (r ≡ ok m)
            × (is_empty m ≡ false)
            × (done.metrics ≡ some m)
            × (done.triggers ≡ s.triggers))
  unfolding run
  run_raised s (raise e) x done h =
      let same : e ≡ x = cc h in inl (ap raise same, sym (ap (λ p. p.1) h))
  run_raised s (ok m) x done h =
      let (full, stored, kept) = stages_raised s m x done h in inr (m, refl, full, stored, kept)
