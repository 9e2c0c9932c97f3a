-- ===== src/V2/Model.antt =====
-- ml/v2/model.py: `ReplicaPatternModel` detects the recurring patterns of the preprocessed data.
pub mod Collect
pub mod Detectors
pub mod Patterns
pub mod Total
use smart_hpa.Prelude.{
  ℕ, ◌+◌, Bool, true, false, ◌||◌, List, [], ◌∷◌, ◌++◌, map, length, take, filter, range, Option,
  none, some, Result, ok, raise, ◌>>=◌, ltb, leb, ◌==◌, if◌then◌else◌,
}
use smart_hpa.Float.{Float}
use smart_hpa.V2.Config.{
  TriggerType, peak, off_peak, weekend, night, morning, evening, ModelConfig, PatternResult,
}
use smart_hpa.V2.Data.{Matrix, cell, ProcessedData}

-- The inner loop: the readings of the hours of one day that hold samples.
unfoldable pub collect_hours {ℓ} :
    {A : Type ℓ} → Matrix ℕ → (ℕ → ℕ → Result A) → ℕ → List ℕ → Result (List A)
unfolding cell
collect_hours counts read d [] = ok []
collect_hours counts read d (h ∷ hs) = do
  n ← cell counts d h
  here ← (if ltb 0 n then (do v ← read d h; ok (v ∷ [])) else ok [])
  rest ← collect_hours counts read d hs
  ok (here ++ rest)

-- `for d in days: for h in hours: if data.hourly_count[d, h] > 0: values.append(...)`
unfoldable pub collect {ℓ} :
    {A : Type ℓ} → Matrix ℕ → (ℕ → ℕ → Result A) → List ℕ → List ℕ → Result (List A)
unfolding collect_hours
collect counts read hours [] = ok []
collect counts read hours (d ∷ ds) = do
  here ← collect_hours counts read d hours
  rest ← collect counts read hours ds
  ok (here ++ rest)

-- `not values`, and `not values or len(values) < 5`
abbrev pub no_values {ℓ} : {A : Type ℓ} → List A → Bool
no_values [] = true
no_values (x ∷ xs) = false

module _ {F : Type 0} ⦃f : Float F⦄ where
  open f use {literal, add, sub, mul, div, abs, lt, le, eq, mean, std, amin, amax, percentile}

  -- `max(a, b)` of floats: the second only if it is greater.
  unfoldable pub max_float : F → F → F
  max_float a b = if lt a b then b else a

  -- The confidence of more than one value falls with their coefficient of variation, down to a floor.
  unfoldable pub confidence_of : F → F → List F → F
  unfolding max_float
  confidence_of floor single values =
      if ltb 1 (length values)
      then max_float floor (sub (literal 1 0) (div (std values) (add (mean values) (literal 1 10))))
      else single

  -- The `PatternResult(...)` that ends each detector; `tops` are the values that the maximum is of.
  unfoldable pub pattern_of : TriggerType → List ℕ → List ℕ → List F → List F → F → PatternResult F
  pattern_of kind hours days values tops confidence = record {
    pattern_type = kind;
    hours = hours;
    days = days;
    avg_replicas = mean values;
    min_replicas = amin values;
    max_replicas = amax tops;
    percentile_25 = percentile values 25;
    percentile_75 = percentile values 75;
    confidence = confidence;
    sample_count = length values;
  }

  -- `hourly_avg` alone, and with `hourly_max`.
  abbrev pub read_avg : ProcessedData F → ℕ → ℕ → Result F
  read_avg data_in d h = cell data_in.hourly_avg d h

  abbrev pub read_both : ProcessedData F → ℕ → ℕ → Result (F × F)
  read_both data_in d h = do
    a ← cell data_in.hourly_avg d h
    m ← cell data_in.hourly_max d h
    ok (a, m)

  abbrev pub firsts : List (F × F) → List F
  firsts = map (λ p. p.0)

  abbrev pub seconds : List (F × F) → List F
  seconds = map (λ p. p.1)

  unfoldable pub detect_weekday_offpeak : ProcessedData F → Result (Option (PatternResult F))
  unfolding collect confidence_of pattern_of
  detect_weekday_offpeak data_in = do
    let weekday_indices = range 0 5
    let offpeak_hours = range 17 24 ++ range 0 9
    found ← collect data_in.hourly_count (read_both data_in) offpeak_hours weekday_indices
    let values = firsts found
    ok (
        if no_values found || lt data_in.percentile_50 (mean values)
        then none
        else some (
            pattern_of off_peak offpeak_hours weekday_indices values (seconds found)
              (confidence_of (literal 5 1) (literal 6 1) values)))

  unfoldable pub detect_weekday_peak :
      ModelConfig F → ProcessedData F → Result (Option (PatternResult F))
  unfolding collect confidence_of pattern_of
  detect_weekday_peak config data_in = do
    let weekday_indices = range 0 5
    let peak_hours = range config.business_hours_start config.business_hours_end
    found ← collect data_in.hourly_count (read_both data_in) peak_hours weekday_indices
    let values = firsts found
    ok (
        if no_values found || lt (mean values) (mul (mean data_in.daily_avg) (literal 8 1))
        then none
        else some (
            pattern_of peak peak_hours weekday_indices values (seconds found)
              (confidence_of (literal 5 1) (literal 6 1) values)))

  unfoldable pub detect_weekday_night :
      ModelConfig F → ProcessedData F → Result (Option (PatternResult F))
  unfolding collect confidence_of pattern_of
  detect_weekday_night config data_in = do
    let weekday_indices = range 0 5
    let night_hours = range config.night_hours_start 24 ++ range 0 config.night_hours_end
    values ← collect data_in.hourly_count (read_avg data_in) night_hours weekday_indices
    ok (
        if no_values values || lt data_in.percentile_50 (mean values)
        then none
        else some (
            pattern_of night night_hours weekday_indices values values
              (confidence_of (literal 5 1) (literal 6 1) values)))

  unfoldable pub detect_weekend :
      ModelConfig F → ProcessedData F → Result (Option (PatternResult F))
  unfolding collect confidence_of pattern_of
  detect_weekend config data_in = do
    let weekend_indices = config.weekend_days
    let all_hours = range 0 24
    values ← collect data_in.hourly_count (read_avg data_in) all_hours weekend_indices
    let weekday_avg = mean (take 5 data_in.daily_avg)
    ok (
        if no_values values
          || lt (abs (sub (mean values) weekday_avg)) (mul data_in.global_std (literal 5 1))
        then none
        else some (
            pattern_of weekend all_hours weekend_indices values values
              (confidence_of (literal 5 1) (literal 6 1) values)))

  unfoldable pub detect_morning :
      ModelConfig F → ProcessedData F → Result (Option (PatternResult F))
  unfolding collect confidence_of pattern_of
  detect_morning config data_in = do
    let weekday_indices = range 0 5
    let morning_hours = range 6 config.business_hours_start
    values ← collect data_in.hourly_count (read_avg data_in) morning_hours weekday_indices
    ok (
        if ltb (length values) 5
          || (le (mean values) data_in.percentile_25 || le data_in.percentile_75 (mean values))
        then none
        else some (
            pattern_of morning morning_hours weekday_indices values values
              (confidence_of (literal 4 1) (literal 5 1) values)))

  unfoldable pub detect_evening :
      ModelConfig F → ProcessedData F → Result (Option (PatternResult F))
  unfolding collect confidence_of pattern_of
  detect_evening config data_in = do
    let weekday_indices = range 0 5
    let evening_hours = range config.business_hours_end config.night_hours_start
    values ← collect data_in.hourly_count (read_avg data_in) evening_hours weekday_indices
    ok (
        if ltb (length values) 5
          || (le (mean values) data_in.percentile_25 || le data_in.percentile_75 (mean values))
        then none
        else some (
            pattern_of evening evening_hours weekday_indices values values
              (confidence_of (literal 4 1) (literal 5 1) values)))

  -- `if pattern: patterns.append(pattern)`
  abbrev pub present : Option (PatternResult F) → List (PatternResult F)
  present none = []
  present (some p) = p ∷ []

  abbrev pub is_confident : ModelConfig F → PatternResult F → Bool
  is_confident config p = le config.min_confidence p.confidence

  unfoldable pub infer : ModelConfig F → ProcessedData F → Result (List (PatternResult F))
  unfolding detect_weekday_peak detect_weekday_offpeak detect_weekday_night detect_weekend
      detect_morning detect_evening
  infer config data_in = do
    let found = (do
      weekday_peak ← detect_weekday_peak config data_in
      weekday_offpeak ← detect_weekday_offpeak data_in
      weekday_night ← detect_weekday_night config data_in
      weekend_found ← detect_weekend config data_in
      morning_found ← detect_morning config data_in
      evening_found ← detect_evening config data_in
      ok (
          filter (is_confident config) (
            present weekday_peak
            ++ (present weekday_offpeak
                ++ (present weekday_night
                    ++ (present weekend_found
                        ++ (present morning_found ++ present evening_found)))))))
    if eq data_in.global_max (literal 0 0) then ok [] else found
