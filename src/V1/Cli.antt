-- ===== src/V1/Cli.antt =====
-- ml/generate_triggers.py and ml/analyze_patterns.py, and the object of ml/trigger_generator.py that they
-- use: what the scripts print last, and their exit codes.
pub mod Outcomes
pub mod Files
use smart_hpa.Prelude.{
  ℕ, Bool, true, false, String, List, [], ◌∷◌, ◌++◌, map, length, Option, none, some, Result, ok,
  raise, Error, ◌>>=◌, if◌then◌else◌,
}
use smart_hpa.Prelude.Int.{pos}
use smart_hpa.Prelude.Text.{concat, str_eq}
use smart_hpa.Float.{Float}
use smart_hpa.Host.{Host}
use smart_hpa.Json.{Json, bool, num, str, object, array}
use smart_hpa.V1.Config.{
  PrometheusConfig, MetricLabels, AnalysisConfig, analysis_config, TriggerSuggestion,
  suggestion_to_dict,
}
use smart_hpa.V1.Naming.{TimePattern}
use smart_hpa.V1.Prometheus.{Api, Frame}
use smart_hpa.V1.Prometheus.Sample.{Metric, MetricsData, fetch_all_metrics}
use smart_hpa.V1.Analyzer.Tables.{Tools}
use smart_hpa.V1.Analyzer.Detect.{analyze}
use smart_hpa.V1.Generator.{Generator, generate, generator_spec}
use smart_hpa.V2.ApiHandler.{
  Request, get_key, wants_spec, Loaded, decoded, no_object, not_json, unreadable,
}

-- The settings of the object, with those of its parts.
pub record TriggerGenerator (F : Type 0) : Type 0 where
  pub prometheus_config : PrometheusConfig
  pub labels : MetricLabels
  pub generator : Generator F

-- `TriggerGenerator(...)` without further keywords.
unfoldable pub new_generator :
    {F : Type 0} ⦃f : Float F⦄
    → String
    → String
    → String
    → String
    → List (String × String)
    → String
    → ℕ
    → TriggerGenerator F
unfolding analysis_config
new_generator url namespace deployment container custom_labels timezone days_to_analyze = record {
  prometheus_config = record { url = url; timeout = 30; verify_ssl = true; auth_token = none };
  labels = record {
    namespace = namespace;
    deployment = deployment;
    pod = "";
    container = container;
    custom_labels = custom_labels;
  };
  generator = record {
    config = record analysis_config { days_to_analyze = days_to_analyze };
    timezone = timezone;
    patterns = [];
    suggestions = [];
  };
}

pub record Outcome : Type 0 where
  pub response : Json
  pub exit_code : ℕ

abbrev pub failure : String → Outcome
failure error = record {
  response = object (("success", bool false) ∷ ("error", str error) ∷ []);
  exit_code = 1;
}

-- The `try` of a script: its answer, or the text of the exception.
abbrev pub outcome_of : (Error → String) → Result Json → Outcome
outcome_of error_text (ok answer) = record { response = answer; exit_code = 0 }
outcome_of error_text (raise e) = failure (error_text e)

-- After the request is decoded, or not. The exception for JSON that is no object is raised in the `try`.
abbrev pub loaded : (Error → String) → (Request → Result Json) → Loaded → Result Outcome
loaded error_text body (decoded request) = ok (outcome_of error_text (body request))
loaded error_text body (no_object e) = ok (failure (error_text e))
loaded error_text body (not_json e) = ok (failure (concat ("Invalid JSON: " ∷ error_text e ∷ [])))
loaded error_text body (unreadable e) = raise e

-- `main`, which is the same in both scripts but for the body of its `try`: `argv` is `sys.argv`. An
-- exception that leaves it is its result.
unfoldable pub main :
    (Error → String) → (String → Loaded) → (Request → Result Json) → List String → Result Outcome
unfolding concat
main error_text loads body (script ∷ config ∷ rest) = loaded error_text body (loads config)
main error_text loads body _ = ok (failure "No configuration provided")

module _ {F : Type 0} (write_float : F → Json) where
  -- A pattern in the answer.
  unfoldable pub pattern_json : TimePattern F → Json
  pattern_json p = object (
      ("startHour", num (pos p.start_hour))
      ∷ ("startMinute", num (pos p.start_minute))
      ∷ ("endHour", num (pos p.end_hour))
      ∷ ("endMinute", num (pos p.end_minute))
      ∷ ("days", array (map (λ d. num (pos d)) p.days))
      ∷ ("avgCpu", write_float p.avg_cpu)
      ∷ ("avgMemory", write_float p.avg_memory)
      ∷ ("avgReplicas", write_float p.avg_replicas)
      ∷ ("peakReplicas", num p.peak_replicas)
      ∷ ("confidence", write_float p.confidence)
      ∷ [])

  abbrev pub size : Frame F → Json
  size frame = num (pos (length frame))

  unfoldable pub analysis_answer : MetricsData F → List (TimePattern F) → Json
  unfolding pattern_json
  analysis_answer metrics patterns = object (
      ("success", bool true)
      ∷ ("patterns", array (map pattern_json patterns))
      ∷ (
        "stats",
        object (
            ("cpuDataPoints", size metrics.cpu)
            ∷ ("memoryDataPoints", size metrics.memory)
            ∷ ("replicaDataPoints", size metrics.replicas)
            ∷ ("patternsDetected", num (pos (length patterns)))
            ∷ []),
      )
      ∷ [])

module _ {F : Type 0} ⦃f : Float F⦄ where
  -- The object of a request, in ml/analyze_patterns.py and in ml/generate_triggers.py: `container` is the
  -- key of the request that v2 does not have.
  unfoldable pub analysis_object : Request → TriggerGenerator F
  unfolding new_generator
  analysis_object request =
      new_generator (get_key request.prometheus_url "http://localhost:9090")
        (get_key request.namespace "") (get_key request.deployment "") ""
        (get_key request.custom_labels []) "UTC" (get_key request.days_to_analyze 30)

  unfoldable pub triggers_object : Option String → Request → TriggerGenerator F
  unfolding new_generator
  triggers_object container request =
      new_generator (get_key request.prometheus_url "http://localhost:9090")
        (get_key request.namespace "") (get_key request.deployment "") (get_key container "")
        (get_key request.custom_labels []) (get_key request.timezone "UTC")
        (get_key request.days_to_analyze 30)

  -- The answer of ml/generate_triggers.py after `generate`.
  unfoldable pub triggers_answer :
      Request → Result (List (TriggerSuggestion F)) × Generator F → Result Json
  unfolding generator_spec suggestion_to_dict
  triggers_answer request (outcome, done) = do
    triggers ← outcome
    let spec =
        generator_spec done (get_key request.smart_hpa_name "my-smarthpa")
          (get_key request.namespace "default") (get_key request.hpa_name "my-hpa")
    ok (
        object (
          ("success", bool true)
          ∷ ("triggers", array (map suggestion_to_dict done.suggestions))
          ∷ (if wants_spec request then ("spec", spec) ∷ [] else [])))

module _ {F : Type 0} {S : Type 0} ⦃f : Float F⦄ (api : Api F) (host : Host F S) (tools : Tools F)
    (minus_one : F) where
  -- `fetch_all_metrics` with the step of five minutes, and `analyze`.
  unfoldable pub fetch_and_analyze :
      TriggerGenerator F → (Metric → ℕ) → S → Result (MetricsData F × List (TimePattern F))
  unfolding fetch_all_metrics analyze
  fetch_and_analyze s now random = do
    metrics ← fetch_all_metrics api host s.labels s.generator.config.days_to_analyze "5m" now random
    patterns ← analyze tools minus_one s.generator.config metrics.0
    ok (metrics.0, patterns)

module _ {F : Type 0} {S : Type 0} ⦃f : Float F⦄ (api : Api F) (host : Host F S) (tools : Tools F)
    (write_float : F → Json) (minus_one : F) where
  -- The body of ml/analyze_patterns.py.
  unfoldable pub analyze_request : (Metric → ℕ) → S → Request → Result Json
  unfolding analysis_object fetch_and_analyze analysis_answer
  analyze_request now random request = do
    analyzed ← fetch_and_analyze api host tools minus_one (analysis_object request) now random
    ok (analysis_answer write_float analyzed.0 analyzed.1)

  -- The body of ml/generate_triggers.py.
  unfoldable pub generate_request : (Metric → ℕ) → S → Option String → Request → Result Json
  unfolding triggers_object fetch_and_analyze generate triggers_answer
  generate_request now random container request = do
    let s = triggers_object container request
    analyzed ← fetch_and_analyze api host tools minus_one s now random
    triggers_answer request (generate s.generator analyzed.1)
