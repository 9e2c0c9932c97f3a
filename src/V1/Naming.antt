-- ===== src/V1/Naming.antt =====
-- `TimePattern` of ml/pattern_analyzer.py, and the texts that ml/trigger_generator.py makes of it.
use smart_hpa.Prelude.{
  ℕ, ◌+◌, String, List, [], ◌∷◌, map, length, get_elem?, none, some, ltb, ◌==◌, if◌then◌else◌,
  range,
}
use smart_hpa.Prelude.Int.{ℤ}
use smart_hpa.Prelude.Text.{concat, join, two_digits, decimal}
use smart_hpa.Prelude.Sort.{sorted}
use smart_hpa.Float.{Float}
use smart_hpa.V2.Naming.{same_numbers}
use smart_hpa.V1.Config.{AnalysisConfig}

pub record TimePattern (F : Type 0) : Type 0 where
  pub start_hour : ℕ
  pub start_minute : ℕ
  pub end_hour : ℕ
  pub end_minute : ℕ
  pub days : List ℕ
  pub avg_cpu : F
  pub avg_memory : F
  pub avg_replicas : F
  pub peak_replicas : ℤ
  pub confidence : F

-- `f"{hour:02d}:{minute:02d}:00"`
unfoldable pub clock_text : ℕ → ℕ → String
unfolding concat two_digits
clock_text hour minute = concat (two_digits hour ∷ ":" ∷ two_digits minute ∷ ":00" ∷ [])

-- `day_map.get(d, str(d))`
unfoldable pub day_text : List String → ℕ → String
unfolding decimal
day_text names d = elim (get_elem? names d) [ some name ↦ name | none ↦ decimal d ]

unfoldable pub days_to_string : {F : Type 0} → AnalysisConfig F → List ℕ → String
unfolding day_text join sorted
days_to_string config days =
    join "," (map (day_text config.weekday_map) (sorted (λ x y. ltb y x) days))

unfoldable pub period : List ℕ → ℕ → String
unfolding concat decimal
period days index =
    if same_numbers days (range 0 5)
    then "weekday"
    else if same_numbers days (5 ∷ 6 ∷ [])
    then "weekend"
    else if length days == 7
    then "daily"
    else concat ("custom-" ∷ decimal (index + 1) ∷ [])

unfoldable pub time_period : ℕ → String
time_period hour = if ltb hour 12 then "morning" else if ltb hour 17 then "afternoon" else "evening"

module _ {F : Type 0} ⦃f : Float F⦄ where
  open f use {literal, lt}

  unfoldable pub load : TimePattern F → String
  load pattern =
      if lt (literal 5 0) pattern.avg_replicas
      then "high-load"
      else if lt (literal 2 0) pattern.avg_replicas
      then "normal-load"
      else "low-load"

  unfoldable pub generate_trigger_name : TimePattern F → ℕ → String
  unfolding period time_period load concat
  generate_trigger_name pattern index =
      concat
        (period pattern.days index ∷ "-" ∷ time_period pattern.start_hour ∷ "-" ∷ load pattern ∷ [])
