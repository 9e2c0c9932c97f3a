-- ===== src/V2/Pipeline/Stages.antt =====
-- `run`: what the stages hand on, what is stored, and which stage may raise.
use mathlib.Core.Path.{subst}
use smart_hpa.Prelude.{
  raise, false, ◌≡◌, refl, sym, ap, ◌∙◌, ◌⊎◌, inl, inr, true, List, [], All, some, Result, ok,
  Bool-cases,
}
use smart_hpa.Float.{Float}
use smart_hpa.V2.Config.{PatternResult, TriggerConfig}
use smart_hpa.V2.Data.{ReplicaMetrics, ProcessedData, is_empty}
use smart_hpa.V2.Preprocessor.{preprocess}
use smart_hpa.V2.Preprocessor.Hourly.{preprocess-IsHourly}
use smart_hpa.V2.Model.{infer}
use smart_hpa.V2.Model.Total.{IsUsable, IsShaped, infer-Returns}
use smart_hpa.V2.Postprocessor.{process}
use smart_hpa.V2.Postprocessor.Replicas.{IsRunnable}
use smart_hpa.V2.Postprocessor.Process.{process-IsRunnable}
use smart_hpa.V2.Fetcher.Aligned.{IsAligned}
use smart_hpa.V2.Pipeline.{Pipeline, run, run_triggers, run_patterns, run_processed}

module _ {F : Type 0} ⦃f : Float F⦄ where
  -- A run that came to triggers over the fetched data `m`: each stage returned, and all is stored.
  pub record IsRun (s : Pipeline F) (m : ReplicaMetrics F) (ts : List (TriggerConfig F))
      (done : Pipeline F) : Type 0 where
    pub data_in : ProcessedData F
    pub patterns : List (PatternResult F)
    pub preprocessed : preprocess (f.literal 30 1) m ≡ ok data_in
    pub inferred : infer s.model data_in ≡ ok patterns
    pub postprocessed : process s.model s.timezone patterns data_in ≡ ok ts
    pub stored :
        record s { metrics = some m; processed = some data_in; patterns = patterns; triggers = ts }
        ≡ done

  run_triggers_inv :
      (s : Pipeline F) (r : Result (List (TriggerConfig F))) (ts : List (TriggerConfig F))
      (done : Pipeline F)
      → run_triggers s r ≡ (ok ts, done)
      → (r ≡ ok ts) × (record s { triggers = ts } ≡ done)
  unfolding run_triggers
  run_triggers_inv s (raise e) ts done h = cc
  run_triggers_inv s (ok x) ts done h =
      let same : x ≡ ts = cc h in
      (ap ok same, sym (ap (λ ys. record s { triggers = ys }) same) ∙ ap (λ p. p.1) h)

  run_patterns_inv :
      (s : Pipeline F) (d : ProcessedData F) (r : Result (List (PatternResult F)))
      (ts : List (TriggerConfig F)) (done : Pipeline F)
      → run_patterns s d r ≡ (ok ts, done)
      → (ps : List (PatternResult F)) × (r ≡ ok ps)
        × (process s.model s.timezone ps d ≡ ok ts)
        × (record s { patterns = ps; triggers = ts } ≡ done)
  unfolding run_patterns
  run_patterns_inv s d (raise e) ts done h = cc
  run_patterns_inv s d (ok ps) ts done h =
      let (made, last) =
        run_triggers_inv (record s { patterns = ps }) (process s.model s.timezone ps d) ts done h in
      (ps, refl, made, last)

  run_processed_inv :
      (s : Pipeline F) (r : Result (ProcessedData F)) (ts : List (TriggerConfig F))
      (done : Pipeline F)
      → run_processed s r ≡ (ok ts, done)
      → (d : ProcessedData F) × (ps : List (PatternResult F)) × (r ≡ ok d)
        × (infer s.model d ≡ ok ps)
        × (process s.model s.timezone ps d ≡ ok ts)
        × (record s { processed = some d; patterns = ps; triggers = ts } ≡ done)
  unfolding run_processed
  run_processed_inv s (raise e) ts done h = cc
  run_processed_inv s (ok d) ts done h =
      let (ps, found, made, last) =
        run_patterns_inv (record s { processed = some d }) d (infer s.model d) ts done h in
      (d, ps, refl, found, made, last)

  -- If `run` returns triggers, either there was no data, no trigger is returned and nothing but the
  -- fetched data is stored, or each stage returned, on the result of the one before it, and the results
  -- of all of them are stored, the returned triggers among them.
  pub run_inv :
      (s : Pipeline F) (m : ReplicaMetrics F) (ts : List (TriggerConfig F)) (done : Pipeline F)
      → run s (ok m) ≡ (ok ts, done)
      → ((is_empty m ≡ true) × (ts ≡ []) × (done ≡ record s { metrics = some m }))
        ⊎ IsRun s m ts done
  unfolding run
  run_inv s m ts done h = elim (Bool-cases (is_empty m)) [
    | inl e ↦
        let same : (ok [], record s { metrics = some m }) ≡ (ok ts, done) = rw e at h in
        inl (e, cc same, cc same)
    | inr e ↦
        let (d, ps, pre, found, made, last) =
          run_processed_inv (record s { metrics = some m }) (preprocess (f.literal 30 1) m) ts done
            (rw e at h) in
        inr (record {
          data_in = d;
          patterns = ps;
          preprocessed = pre;
          inferred = found;
          postprocessed = made;
          stored = last;
        })
  ]

  -- Every trigger of a run that returns has at least 1 minimum replica and no fewer maximum replicas.
  pub run-IsRunnable :
      (s : Pipeline F) (r : Result (ReplicaMetrics F)) (ts : List (TriggerConfig F))
      (done : Pipeline F)
      → run s r ≡ (ok ts, done)
      → All IsRunnable ts
  unfolding run
  run-IsRunnable s (raise e) ts done h = absurd (cc h)
  run-IsRunnable s (ok m) ts done h = elim (run_inv s m ts done h) [
    | inl none_left ↦ subst (All IsRunnable) (sym none_left.1) tt
    | inr r ↦ process-IsRunnable s.model s.timezone r.patterns r.data_in ts r.postprocessed
  ]

  -- On aligned data that is not empty, and a configuration in range, the preprocessor and the model
  -- return, and the run ends as the post-processor does, with the results of both stored.
  pub run_stages :
      (s : Pipeline F) (m : ReplicaMetrics F)
      → IsUsable s.model
      → IsAligned m
      → is_empty m ≡ false
      → (d : ProcessedData F) × (ps : List (PatternResult F)) × (preprocess (f.literal 30 1) m
          ≡ ok d)
        × (infer s.model d ≡ ok ps)
        × (run s (ok m)
            ≡ run_triggers
                (record s { metrics = some m; processed = some d; patterns = ps })
                (process s.model s.timezone ps d))
  unfolding run run_processed run_patterns
  run_stages s m u a full =
      let (d, pre, hourly) =
        preprocess-IsHourly (f.literal 30 1) m full a.days_bound a.hours_bound in
      let shaped : IsShaped s.model d = record {
        counts = λ i j il jl. (_, hourly.counts i j il jl);
        avgs = λ i j il jl. (_, hourly.avgs i j il jl);
        maxs = λ i j il jl. (_, hourly.maxs i j il jl);
      } in
      let (ps, found) = infer-Returns s.model u d shaped in
      (d, ps, pre, found, rw (full, pre, found))
