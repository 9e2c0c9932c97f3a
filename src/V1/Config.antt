-- ===== src/V1/Config.antt =====
-- ml/config.py: the label selector, the settings of the analysis and the suggested triggers.
use smart_hpa.Prelude.{ℕ, Bool, Option, String, List, [], ◌∷◌, ◌++◌, map, if◌then◌else◌}
use smart_hpa.Prelude.Text.{concat, join, str_eq}
use smart_hpa.Prelude.Int.{ℤ, pos, max_ℤ}
use smart_hpa.Float.{Float}
use smart_hpa.Json.{Json, str, num, object}
use smart_hpa.V2.Config.{label, label_if_set}

pub record PrometheusConfig : Type 0 where
  pub url : String
  pub timeout : ℕ
  pub verify_ssl : Bool
  pub auth_token : Option String

pub record MetricLabels : Type 0 where
  pub namespace : String
  pub deployment : String
  pub pod : String
  pub container : String
  pub custom_labels : List (String × String)

-- `pod=~"{pod}.*"`
unfoldable pub pod_label : String → List String
unfolding concat
pod_label pod = if str_eq pod "" then [] else concat ("pod=~\"" ∷ pod ∷ ".*\"" ∷ []) ∷ []

-- `MetricLabels.to_label_selector`
unfoldable pub labels_to_selector : MetricLabels → String
unfolding pod_label label_if_set label join
labels_to_selector c = join "," (
    label_if_set "namespace" c.namespace
    ++ (label_if_set "deployment" c.deployment
        ++ (pod_label c.pod
            ++ (label_if_set "container" c.container ++ map (λ e. label e.0 e.1) c.custom_labels))))

pub record AnalysisConfig (F : Type 0) : Type 0 where
  pub days_to_analyze : ℕ
  pub step_minutes : ℕ
  pub min_pattern_duration_hours : F
  pub max_triggers : ℕ
  pub n_clusters_range : ℕ × ℕ
  pub cpu_target_utilization : F
  pub memory_target_utilization : F
  pub replica_buffer_percent : F
  pub base_priority : ℕ
  pub priority_step : ℕ
  pub weekday_map : List String

-- `AnalysisConfig()`, with its defaults.
unfoldable pub analysis_config : {F : Type 0} ⦃f : Float F⦄ → AnalysisConfig F
analysis_config ⦃f⦄ = record {
  days_to_analyze = 30;
  step_minutes = 5;
  min_pattern_duration_hours = f.literal 10 1;
  max_triggers = 10;
  n_clusters_range = (2, 8);
  cpu_target_utilization = f.literal 7 1;
  memory_target_utilization = f.literal 8 1;
  replica_buffer_percent = f.literal 2 1;
  base_priority = 100;
  priority_step = 10;
  weekday_map = "M" ∷ "TU" ∷ "W" ∷ "TH" ∷ "F" ∷ "SAT" ∷ "SUN" ∷ [];
}

pub record TriggerSuggestion (F : Type 0) : Type 0 where
  pub name : String
  pub priority : ℤ
  pub timezone : String
  pub start_time : String
  pub end_time : String
  pub recurring : String
  pub min_replicas : ℤ
  pub max_replicas : ℤ
  pub confidence : F

-- `TriggerSuggestion.to_dict`
unfoldable pub suggestion_to_dict : {F : Type 0} → TriggerSuggestion F → Json
unfolding max_ℤ
suggestion_to_dict t = object (
    ("name", str t.name)
    ∷ ("priority", num t.priority)
    ∷ ("timezone", str t.timezone)
    ∷ ("startTime", str t.start_time)
    ∷ ("endTime", str t.end_time)
    ∷ ("interval", object (("recurring", str t.recurring) ∷ []))
    ∷ (
      "startHPAConfig",
      object (("minReplicas", num t.min_replicas) ∷ ("maxReplicas", num t.max_replicas) ∷ []),
    )
    ∷ (
      "endHPAConfig",
      object
          (("minReplicas", num (pos 1)) ∷ ("maxReplicas", num (max_ℤ (pos 3) t.min_replicas)) ∷ []),
    )
    ∷ [])
