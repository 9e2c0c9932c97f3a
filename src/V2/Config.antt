-- ===== src/V2/Config.antt =====
-- ml/v2/config.py: the trigger types, the configuration classes and the results of the model and of
-- the post-processor.
use smart_hpa.Prelude.{ℕ, String, List, [], ◌∷◌, ◌++◌, map, if◌then◌else◌}
use smart_hpa.Prelude.Text.{concat, join, str_eq}
use smart_hpa.Prelude.Int.{ℤ, pos, max_ℤ}
use smart_hpa.Float.{Float}
use smart_hpa.Json.{Json, str, num, object}

pub data TriggerType : Type 0 where
  peak off_peak weekend weekday seasonal night morning afternoon evening : TriggerType

-- The values of the enumeration.
unfoldable pub value : TriggerType → String
value peak = "peak"
value off_peak = "off-peak"
value weekend = "weekend"
value weekday = "weekday"
value seasonal = "seasonal"
value night = "night"
value morning = "morning"
value afternoon = "afternoon"
value evening = "evening"

-- The query templates are functions of the label selector.
pub record PrometheusConfig : Type 0 where
  pub url : String
  pub timeout : ℕ
  pub replica_query : String → String
  pub hpa_replica_query : String → String

unfoldable pub prometheus_config : String → PrometheusConfig
unfolding concat
prometheus_config url = record {
  url = url;
  timeout = 30;
  replica_query = λ labels. concat ("kube_deployment_status_replicas{" ∷ labels ∷ "}" ∷ []);
  hpa_replica_query = λ labels.
      concat ("kube_horizontalpodautoscaler_status_current_replicas{" ∷ labels ∷ "}" ∷ []);
}

pub record FetchConfig : Type 0 where
  pub days : ℕ
  pub step_minutes : ℕ
  pub namespace : String
  pub deployment : String
  pub custom_labels : List (String × String)

-- `key="value"`
unfoldable pub label : String → String → String
unfolding concat
label key value = concat (key ∷ "=\"" ∷ value ∷ "\"" ∷ [])

-- `if name: labels.append(...)`
unfoldable pub label_if_set : String → String → List String
unfolding label
label_if_set key value = if str_eq value "" then [] else label key value ∷ []

unfoldable pub to_label_selector : FetchConfig → String
unfolding label_if_set label join
to_label_selector c = join "," (
    label_if_set "namespace" c.namespace
    ++ (label_if_set "deployment" c.deployment ++ map (λ e. label e.0 e.1) c.custom_labels))

pub record ModelConfig (F : Type 0) : Type 0 where
  pub peak_percentile : F
  pub off_peak_percentile : F
  pub business_hours_start : ℕ
  pub business_hours_end : ℕ
  pub night_hours_start : ℕ
  pub night_hours_end : ℕ
  pub weekend_days : List ℕ
  pub min_confidence : F
  pub replica_buffer_percent : F

pub record PatternResult (F : Type 0) : Type 0 where
  pub pattern_type : TriggerType
  pub hours : List ℕ
  pub days : List ℕ
  pub avg_replicas : F
  pub min_replicas : F
  pub max_replicas : F
  pub percentile_25 : F
  pub percentile_75 : F
  pub confidence : F
  pub sample_count : ℕ

pub record TriggerConfig (F : Type 0) : Type 0 where
  pub name : String
  pub trigger_type : TriggerType
  pub priority : ℕ
  pub timezone : String
  pub start_time : String
  pub end_time : String
  pub recurring : String
  pub min_replicas : ℤ
  pub max_replicas : ℤ
  pub confidence : F

-- `ModelConfig()`, with its defaults.
unfoldable pub model_config : {F : Type 0} ⦃f : Float F⦄ → ModelConfig F
model_config ⦃f⦄ = record {
  peak_percentile = f.literal 850 1;
  off_peak_percentile = f.literal 300 1;
  business_hours_start = 9;
  business_hours_end = 17;
  night_hours_start = 22;
  night_hours_end = 6;
  weekend_days = 5 ∷ 6 ∷ [];
  min_confidence = f.literal 6 1;
  replica_buffer_percent = f.literal 2 1;
}

-- `TriggerConfig.to_dict`: the trigger as the controller reads it.
unfoldable pub to_dict : {F : Type 0} → TriggerConfig F → Json
unfolding max_ℤ
to_dict t = object (
    ("name", str t.name)
    ∷ ("priority", num (pos t.priority))
    ∷ ("timezone", str t.timezone)
    ∷ ("startTime", str t.start_time)
    ∷ ("endTime", str t.end_time)
    ∷ ("interval", object (("recurring", str t.recurring) ∷ []))
    ∷ (
      "startHPAConfig",
      object (("minReplicas", num t.min_replicas) ∷ ("maxReplicas", num t.max_replicas) ∷ []),
    )
    ∷ (
      "endHPAConfig",
      object
          (("minReplicas", num (pos 1)) ∷ ("maxReplicas", num (max_ℤ (pos 2) t.min_replicas)) ∷ []),
    )
    ∷ [])
