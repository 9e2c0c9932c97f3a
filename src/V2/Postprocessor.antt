-- ===== src/V2/Postprocessor.antt =====
-- ml/v2/postprocessor.py: `TriggerPostProcessor` turns patterns into trigger configurations.
pub mod Replicas
pub mod Window
pub mod Dedup
pub mod Process
pub mod Total
pub mod Overlap
use smart_hpa.Prelude.{
  ℕ, ◌+◌, Bool, true, false, ◌&&◌, ◌||◌, String, List, [], ◌∷◌, map, length, get_elem?, none, some,
  Result, ok, raise, Error, key_error, ◌>>=◌, traverse, index, min_of, max_of, ltb, leb, ◌==◌,
  if◌then◌else◌, range,
}
use smart_hpa.Prelude.Int.{ℤ, pos, ◌+ℤ◌, max_ℤ, half_ℤ}
use smart_hpa.Prelude.Text.{concat, join, two_digits, str_eq}
use smart_hpa.Prelude.Sort.{sorted}
use smart_hpa.Float.{Float}
use smart_hpa.Json.{Json, str, object, array}
use smart_hpa.V2.Config.{
  TriggerType, peak, off_peak, weekend, weekday, seasonal, night, morning, afternoon, evening,
  value, ModelConfig, PatternResult, TriggerConfig, to_dict,
}
use smart_hpa.V2.Data.{ProcessedData}
use smart_hpa.V2.Naming.{
  day_name, same_numbers, hour_text, recurring_text, day_context, time_context,
}

-- `PRIORITY_ORDER`
unfoldable pub priority_order : TriggerType → ℕ
priority_order peak = 100
priority_order weekday = 90
priority_order morning = 80
priority_order evening = 75
priority_order afternoon = 70
priority_order weekend = 60
priority_order night = 50
priority_order off_peak = 40
priority_order seasonal = 30

abbrev pub is_peak : TriggerType → Bool
is_peak peak = true
is_peak _ = false

-- The hours at which the trigger starts and ends.
unfoldable pub window : List ℕ → Result (ℕ × ℕ)
window hours = do
  start_hour ← min_of hours
  last ← max_of hours
  let end_hour = last + 1
  ok (start_hour, if ltb 23 end_hour then 23 else end_hour)

unfoldable pub window_key : {F : Type 0} → TriggerConfig F → List String
window_key t = t.recurring ∷ t.start_time ∷ t.end_time ∷ []

abbrev pub same_texts : List String → List String → Bool
same_texts [] [] = true
same_texts (x ∷ xs) (y ∷ ys) = str_eq x y && same_texts xs ys
same_texts _ _ = false

-- `key in seen`
abbrev pub seen_in : List String → List (List String) → Bool
seen_in key [] = false
seen_in key (k ∷ ks) = same_texts key k || seen_in key ks

-- The loop of `_deduplicate`; `seen` is the set `seen_windows`.
unfoldable pub dedup_from :
    {F : Type 0} → List (List String) → List (TriggerConfig F) → List (TriggerConfig F)
unfolding window_key
dedup_from seen [] = []
dedup_from seen (t ∷ ts) =
    let known = dedup_from seen ts in
    let fresh = dedup_from (window_key t ∷ seen) ts in
    if seen_in (window_key t) seen then known else t ∷ fresh

unfoldable pub deduplicate : {F : Type 0} → List (TriggerConfig F) → List (TriggerConfig F)
unfolding dedup_from
deduplicate ts = if leb (length ts) 1 then ts else dedup_from [] ts

-- `triggers.sort(key=lambda t: t.priority, reverse=True)`
unfoldable pub by_priority : {F : Type 0} → List (TriggerConfig F) → List (TriggerConfig F)
unfolding sorted
by_priority = sorted (λ t u. ltb t.priority u.priority)

module _ {F : Type 0} ⦃f : Float F⦄ where
  open f use {literal, add, sub, mul, lt, eq, int}

  -- The minimum and maximum replicas of a pattern's trigger.
  unfoldable pub replica_range : ModelConfig F → PatternResult F → Result (ℤ × ℤ)
  replica_range config pattern = do
    let buffer = config.replica_buffer_percent
    low ← int pattern.min_replicas
    let min_replicas = max_ℤ (pos 1) low
    high ← int (mul pattern.max_replicas (add (literal 1 0) buffer))
    let max_replicas = max_ℤ (min_replicas +ℤ pos 2) high
    burst ←
        (if is_peak pattern.pattern_type
            && lt (mul pattern.avg_replicas (literal 12 1)) pattern.percentile_75
          then (do top ← int (mul pattern.max_replicas (literal 15 1)); ok (max_ℤ max_replicas top))
          else ok max_replicas)
    ok (min_replicas, burst)

  unfoldable pub generate_name : PatternResult F → Result String
  unfolding day_context time_context value concat
  generate_name pattern = do
    first ← index pattern.hours 0
    ok (
        concat (
          day_context pattern.days
          ∷ "-"
          ∷ time_context first
          ∷ "-"
          ∷ value pattern.pattern_type
          ∷ []))

  -- The `TriggerConfig(...)` at the end of `_pattern_to_trigger`.
  abbrev pub make_trigger :
      String → PatternResult F → ℤ × ℤ → ℕ × ℕ → String → String → TriggerConfig F
  make_trigger timezone pattern replicas hours recurring name = record {
    name = name;
    trigger_type = pattern.pattern_type;
    priority = priority_order pattern.pattern_type;
    timezone = timezone;
    start_time = hour_text hours.0;
    end_time = hour_text hours.1;
    recurring = recurring;
    min_replicas = replicas.0;
    max_replicas = replicas.1;
    confidence = pattern.confidence;
  }

  unfoldable pub pattern_to_trigger :
      ModelConfig F → String → PatternResult F → Result (TriggerConfig F)
  unfolding replica_range window recurring_text generate_name hour_text priority_order
  pattern_to_trigger config timezone pattern = do
    replicas ← replica_range config pattern
    hours ← window pattern.hours
    recurring ← recurring_text pattern.days
    name ← generate_name pattern
    ok (make_trigger timezone pattern replicas hours recurring name)

  -- `TriggerConfig(...)` of `_default_triggers`: name, type, priority, window and replicas.
  abbrev default_trigger :
      String → String → TriggerType → ℕ → String → String → String → ℤ → ℤ → TriggerConfig F
  default_trigger timezone name kind priority start_time end_time recurring low high = record {
    name = name;
    trigger_type = kind;
    priority = priority;
    timezone = timezone;
    start_time = start_time;
    end_time = end_time;
    recurring = recurring;
    min_replicas = low;
    max_replicas = high;
    confidence = literal 5 1;
  }

  unfoldable pub default_triggers :
      ModelConfig F → String → ProcessedData F → Result (List (TriggerConfig F))
  unfolding max_ℤ half_ℤ
  default_triggers config timezone data_in =
      if eq data_in.global_max (literal 0 0)
      then ok (
          default_trigger timezone "default-baseline" weekday 100 "09:00:00" "17:00:00"
            "M,TU,W,TH,F" (pos 2) (pos 10)
          ∷ [])
      else (do
        let buffer = config.replica_buffer_percent
        low ← int (mul data_in.percentile_25 (sub (literal 1 0) buffer))
        let min_rep = max_ℤ (pos 1) low
        high ← int (mul data_in.global_max (add (literal 1 0) buffer))
        let max_rep = max_ℤ (min_rep +ℤ pos 1) high
        ok (
            default_trigger timezone "default-business-hours" peak 100 "09:00:00" "17:00:00"
              "M,TU,W,TH,F" min_rep max_rep
            ∷ default_trigger timezone "default-weekend" weekend 60 "00:00:00" "23:59:00" "SAT,SUN"
                (max_ℤ (pos 1) (half_ℤ min_rep)) (max_ℤ (pos 2) (half_ℤ max_rep))
            ∷ []))

  unfoldable pub process :
      ModelConfig F
      → String
      → List (PatternResult F)
      → ProcessedData F
      → Result (List (TriggerConfig F))
  unfolding default_triggers pattern_to_trigger by_priority deduplicate
  process config timezone [] data_in = default_triggers config timezone data_in
  process config timezone (p ∷ ps) data_in = do
    triggers ← traverse (pattern_to_trigger config timezone) (p ∷ ps)
    ok (deduplicate (by_priority triggers))

-- `to_smarthpa_spec`
unfoldable pub to_smarthpa_spec :
    {F : Type 0} → List (TriggerConfig F) → String → String → String → Json
unfolding to_dict
to_smarthpa_spec triggers name namespace hpa_name = object (
    ("apiVersion", str "autoscaling.sarabala.io/v1alpha1")
    ∷ ("kind", str "SmartHorizontalPodAutoscaler")
    ∷ ("metadata", object (("name", str name) ∷ ("namespace", str namespace) ∷ []))
    ∷ (
      "spec",
      object (
          ("hpaObjectRef", object (("name", str hpa_name) ∷ ("namespace", str namespace) ∷ []))
          ∷ ("triggers", array (map to_dict triggers))
          ∷ []),
    )
    ∷ [])
