-- ===== src/V2/Pipeline.antt =====
-- ml/v2/pipeline.py: `TriggerPipeline` runs the stages and keeps their results.
pub mod Stages
pub mod Raised
pub mod Night
use smart_hpa.Prelude.{
  ℕ, Bool, String, List, [], ◌∷◌, map, length, Option, none, some, Result, ok, raise, ◌>>=◌,
  if◌then◌else◌,
}
use smart_hpa.Prelude.Int.{ℤ, pos}
use smart_hpa.Prelude.Text.{concat, str_eq}
use smart_hpa.Float.{Float}
use smart_hpa.Json.{Json, num, object, array}
use smart_hpa.V2.Config.{
  PrometheusConfig, prometheus_config, FetchConfig, ModelConfig, model_config, PatternResult,
  TriggerConfig, to_dict,
}
use smart_hpa.V2.Data.{ReplicaMetrics, is_empty, count, ProcessedData}
use smart_hpa.V2.Preprocessor.{preprocess}
use smart_hpa.V2.Model.{infer}
use smart_hpa.V2.Postprocessor.{process, to_smarthpa_spec}

-- The object's configuration and results.
pub record Pipeline (F : Type 0) : Type 0 where
  pub prom_config : PrometheusConfig
  pub fetch_config : FetchConfig
  pub model : ModelConfig F
  pub timezone : String
  pub metrics : Option (ReplicaMetrics F)
  pub processed : Option (ProcessedData F)
  pub patterns : List (PatternResult F)
  pub triggers : List (TriggerConfig F)

-- `a or b` on texts, where `None` and the empty text count as false.
abbrev pub or_text : Option String → String → String
or_text none b = b
or_text (some a) b = if str_eq a "" then b else a

module _ {F : Type 0} ⦃f : Float F⦄ where
  -- `TriggerPipeline(...)`
  unfoldable pub new_pipeline : String → FetchConfig → String → Pipeline F
  unfolding model_config prometheus_config
  new_pipeline prometheus_url fetch_config timezone = record {
    prom_config = prometheus_config prometheus_url;
    fetch_config = fetch_config;
    model = model_config;
    timezone = timezone;
    metrics = none;
    processed = none;
    patterns = [];
    triggers = [];
  }

  -- The steps of `run` from the post-processor, the model and the preprocessor on; an exception leaves
  -- the results so far in place.
  unfoldable pub run_triggers :
      Pipeline F → Result (List (TriggerConfig F)) → Result (List (TriggerConfig F)) × Pipeline F
  run_triggers s (raise e) = (raise e, s)
  run_triggers s (ok triggers) = (ok triggers, record s { triggers = triggers })

  unfoldable pub run_patterns :
      Pipeline F
      → ProcessedData F
      → Result (List (PatternResult F))
      → Result (List (TriggerConfig F)) × Pipeline F
  unfolding run_triggers
  run_patterns s data_in (raise e) = (raise e, s)
  run_patterns s data_in (ok patterns) =
      run_triggers (record s { patterns = patterns }) (process s.model s.timezone patterns data_in)

  unfoldable pub run_processed :
      Pipeline F → Result (ProcessedData F) → Result (List (TriggerConfig F)) × Pipeline F
  unfolding run_patterns
  run_processed s (raise e) = (raise e, s)
  run_processed s (ok data_in) =
      run_patterns (record s { processed = some data_in }) data_in (infer s.model data_in)

  -- `run`; its second argument is what `self.fetcher.fetch(self.fetch_config)` returns or raises, and
  -- the preprocessor's `outlier_std` is 3.0.
  unfoldable pub run :
      Pipeline F → Result (ReplicaMetrics F) → Result (List (TriggerConfig F)) × Pipeline F
  unfolding run_processed
  run s (raise e) = (raise e, s)
  run s (ok fetched) =
      let s' = record s { metrics = some fetched } in
      if is_empty fetched
      then (ok [], s')
      else run_processed s' (preprocess (f.literal 30 1) fetched)

  unfoldable pub pipeline_to_dict : Pipeline F → Json
  unfolding to_dict
  pipeline_to_dict s = array (map to_dict s.triggers)

  -- `TriggerPipeline.to_smarthpa_spec`
  unfoldable pub pipeline_spec : Pipeline F → String → Option String → Option String → Json
  unfolding to_smarthpa_spec concat
  pipeline_spec s name namespace hpa_name =
      to_smarthpa_spec s.triggers name
        (or_text namespace (or_text (some s.fetch_config.namespace) "default"))
        (or_text hpa_name (concat (s.fetch_config.deployment ∷ "-hpa" ∷ [])))

  abbrev pub metrics_count : Option (ReplicaMetrics F) → ℕ
  metrics_count none = 0
  metrics_count (some m) = count m

  -- The statistics of the processed data; `average` writes a float as JSON.
  abbrev pub processed_stats : (F → Json) → Option (ProcessedData F) → Result (List (String × Json))
  processed_stats average none = ok []
  processed_stats average (some p) = do
    high ← f.int p.global_max
    low ← f.int p.global_min
    ok (
        ("global_avg_replicas", average (f.round2 p.global_avg))
        ∷ ("global_max_replicas", num high)
        ∷ ("global_min_replicas", num low)
        ∷ [])

  unfoldable pub get_stats : (F → Json) → Pipeline F → Result Json
  get_stats average s = do
    more ← processed_stats average s.processed
    ok (
        object (
          ("data_points", num (pos (metrics_count s.metrics)))
          ∷ ("patterns_detected", num (pos (length s.patterns)))
          ∷ ("triggers_generated", num (pos (length s.triggers)))
          ∷ more))
