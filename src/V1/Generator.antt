-- ===== src/V1/Generator.antt =====
-- ml/trigger_generator.py: `TriggerGenerator` makes suggestions of the analyzer's patterns.
pub mod Replicas
pub mod Optimize
pub mod Generate
use smart_hpa.Prelude.{
  ℕ, ◌+◌, ◌*◌, suc, Bool, String, List, [], ◌∷◌, map, length, take, get_elem?, Option, none, some,
  Result, ok, raise, ◌>>=◌, ltb, ◌==◌, if◌then◌else◌, range,
}
use smart_hpa.Prelude.Int.{ℤ, pos, ◌+ℤ◌, ◌-ℤ◌, max_ℤ}
use smart_hpa.Prelude.Text.{concat, join, two_digits, decimal, str_eq}
use smart_hpa.Prelude.Sort.{sorted}
use smart_hpa.Float.{Float}
use smart_hpa.Json.{Json, str, object, array}
use smart_hpa.V2.Naming.{same_numbers}
use smart_hpa.V1.Naming.{
  TimePattern, clock_text, day_text, days_to_string, period, time_period, load,
  generate_trigger_name,
}
use smart_hpa.V1.Config.{AnalysisConfig, TriggerSuggestion, suggestion_to_dict}

-- The settings and the results of the object.
pub record Generator (F : Type 0) : Type 0 where
  pub config : AnalysisConfig F
  pub timezone : String
  pub patterns : List (TimePattern F)
  pub suggestions : List (TriggerSuggestion F)

-- `base_priority - (i * priority_step)`
unfoldable pub priority_at : {F : Type 0} → AnalysisConfig F → ℕ → ℤ
unfolding ◌-ℤ◌
priority_at config i = pos config.base_priority -ℤ pos (i * config.priority_step)

module _ {F : Type 0} ⦃f : Float F⦄ where
  open f use {literal, add, sub, mul, lt, int, of_int}

  unfoldable pub calculate_replicas : AnalysisConfig F → TimePattern F → Result (ℤ × ℤ)
  calculate_replicas config pattern = do
    let buffer = config.replica_buffer_percent
    low ← int (mul pattern.avg_replicas (sub (literal 1 0) buffer))
    let min_replicas = max_ℤ (pos 1) low
    high ← int (mul (of_int pattern.peak_replicas) (add (literal 1 0) buffer))
    ok (min_replicas, max_ℤ (min_replicas +ℤ pos 1) high)

  -- The `TriggerSuggestion(...)` of the loop, for the pattern at place `i`.
  unfoldable pub suggest :
      AnalysisConfig F → String → ℕ → TimePattern F → Result (TriggerSuggestion F)
  unfolding calculate_replicas days_to_string generate_trigger_name priority_at clock_text
  suggest config timezone i pattern = do
    replicas ← calculate_replicas config pattern
    ok (record {
      name = generate_trigger_name pattern i;
      priority = max_ℤ (pos 10) (priority_at config i);
      timezone = timezone;
      start_time = clock_text pattern.start_hour pattern.start_minute;
      end_time = clock_text pattern.end_hour pattern.end_minute;
      recurring = days_to_string config pattern.days;
      min_replicas = replicas.0;
      max_replicas = replicas.1;
      confidence = pattern.confidence;
    })

  -- `for i, pattern in enumerate(sorted_patterns)`, from `i` on.
  unfoldable pub suggest_from :
      AnalysisConfig F → String → ℕ → List (TimePattern F) → Result (List (TriggerSuggestion F))
  unfolding suggest
  suggest_from config timezone i [] = ok []
  suggest_from config timezone i (p ∷ ps) = do
    s ← suggest config timezone i p
    rest ← suggest_from config timezone (suc i) ps
    ok (s ∷ rest)

  unfoldable pub patterns_to_triggers :
      AnalysisConfig F → String → List (TimePattern F) → Result (List (TriggerSuggestion F))
  unfolding suggest_from sorted
  patterns_to_triggers config timezone patterns =
      suggest_from config timezone 0 (sorted (λ p q. lt p.avg_replicas q.avg_replicas) patterns)

  -- The suggestions of highest confidence, if there are more than `max_triggers`.
  unfoldable pub limit_triggers :
      AnalysisConfig F → List (TriggerSuggestion F) → List (TriggerSuggestion F)
  unfolding sorted
  limit_triggers config suggestions =
      if ltb config.max_triggers (length suggestions)
      then take config.max_triggers (sorted (λ s t. lt s.confidence t.confidence) suggestions)
      else suggestions

-- `names_seen.get(name)`
abbrev pub seen_count : List (String × ℕ) → String → Option ℕ
seen_count [] name = none
seen_count ((k, n) ∷ seen) name = if str_eq k name then some n else seen_count seen name

-- The name of a suggestion whose base name was seen `n` times, and the count after it.
unfoldable pub unique_name : String → Option ℕ → String × ℕ
unfolding concat decimal
unique_name base_name none = (base_name, 1)
unique_name base_name (some n) = (concat (base_name ∷ "-" ∷ decimal (n + 1) ∷ []), n + 1)

module _ {F : Type 0} where
  -- `suggestion.priority = base_priority - i * priority_step`, from place `i` on.
  unfoldable pub reassign :
      AnalysisConfig F → ℕ → List (TriggerSuggestion F) → List (TriggerSuggestion F)
  unfolding priority_at
  reassign config i [] = []
  reassign config i (s ∷ ss) =
      record s { priority = priority_at config i } ∷ reassign config (suc i) ss

  -- The loop over the names; `seen` is the dict `names_seen`, the last setting of a key in front.
  unfoldable pub unique_names :
      List (String × ℕ) → List (TriggerSuggestion F) → List (TriggerSuggestion F)
  unfolding unique_name
  unique_names seen [] = []
  unique_names seen (s ∷ ss) =
      let named = unique_name s.name (seen_count seen s.name) in
      record s { name = named.0 } ∷ unique_names ((s.name, named.1) ∷ seen) ss

module _ {F : Type 0} ⦃f : Float F⦄ where
  unfoldable pub optimize_triggers :
      AnalysisConfig F → List (TriggerSuggestion F) → List (TriggerSuggestion F)
  unfolding limit_triggers reassign unique_names
  optimize_triggers config [] = []
  optimize_triggers config (s ∷ ss) =
      unique_names [] (reassign config 0 (limit_triggers config (s ∷ ss)))

  unfoldable pub create_default_trigger : String → TriggerSuggestion F
  create_default_trigger timezone = record {
    name = "default-business-hours";
    priority = pos 100;
    timezone = timezone;
    start_time = "09:00:00";
    end_time = "17:00:00";
    recurring = "M,TU,W,TH,F";
    min_replicas = pos 2;
    max_replicas = pos 10;
    confidence = f.literal 5 1;
  }

  -- The rest of `generate` behind `_patterns_to_triggers`; an exception leaves the old suggestions.
  unfoldable pub generate_optimized :
      Generator F
      → Result (List (TriggerSuggestion F))
      → Result (List (TriggerSuggestion F)) × Generator F
  unfolding optimize_triggers
  generate_optimized s (raise e) = (raise e, s)
  generate_optimized s (ok suggestions) =
      let optimized = optimize_triggers s.config suggestions in
      (ok optimized, record s { suggestions = optimized })

  -- `generate`; `found` is what the client and the analyzer return.
  unfoldable pub generate :
      Generator F → List (TimePattern F) → Result (List (TriggerSuggestion F)) × Generator F
  unfolding create_default_trigger patterns_to_triggers generate_optimized
  generate s [] =
      let suggestions = create_default_trigger s.timezone ∷ [] in
      (ok suggestions, record s { patterns = []; suggestions = suggestions })
  generate s (p ∷ ps) =
      generate_optimized (record s { patterns = p ∷ ps })
        (patterns_to_triggers s.config s.timezone (p ∷ ps))

  -- `to_smarthpa_spec`
  unfoldable pub generator_spec : Generator F → String → String → String → Json
  unfolding suggestion_to_dict
  generator_spec s name namespace hpa_name = object (
      ("apiVersion", str "autoscaling.sarabala.io/v1alpha1")
      ∷ ("kind", str "SmartHorizontalPodAutoscaler")
      ∷ ("metadata", object (("name", str name) ∷ ("namespace", str namespace) ∷ []))
      ∷ (
        "spec",
        object (
            ("hpaObjectRef", object (("name", str hpa_name) ∷ ("namespace", str namespace) ∷ []))
            ∷ ("triggers", array (map suggestion_to_dict s.suggestions))
            ∷ []),
      )
      ∷ [])
