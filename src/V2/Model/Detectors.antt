-- ===== src/V2/Model/Detectors.antt =====
-- The six detectors: what a pattern that one of them finds is.
use smart_hpa.Prelude.{
  ℕ, ◌*◌, ◌≤◌, ◌≡◌, refl, Bool, true, false, ◌||◌, List, [], ◌∷◌, ◌++◌, length, range, All, Option,
  none, some, Ensures, Ensures-bind, if◌then◌else◌, ltb, arith,
}
use smart_hpa.Float.{Float}
use smart_hpa.V2.Config.{
  TriggerType, peak, off_peak, weekend, night, morning, evening, ModelConfig, PatternResult,
}
use smart_hpa.V2.Data.{ProcessedData}
use smart_hpa.V2.Model.{
  collect, read_avg, read_both, firsts, seconds, no_values, pattern_of, detect_weekday_peak,
  detect_weekday_offpeak, detect_weekday_night, detect_weekend, detect_morning, detect_evening,
  present,
}
use smart_hpa.V2.Model.Collect.{length-collect}

module _ {F : Type 0} ⦃f : Float F⦄ (config : ModelConfig F) where
  -- The hours that a detector looks at.
  abbrev pub hours_of : TriggerType → List ℕ
  hours_of peak = range config.business_hours_start config.business_hours_end
  hours_of off_peak = range 17 24 ++ range 0 9
  hours_of night = range config.night_hours_start 24 ++ range 0 config.night_hours_end
  hours_of weekend = range 0 24
  hours_of morning = range 6 config.business_hours_start
  hours_of evening = range config.business_hours_end config.night_hours_start
  hours_of _ = []

  abbrev pub days_of : TriggerType → List ℕ
  days_of weekend = config.weekend_days
  days_of _ = range 0 5

  -- The place of a detector in `infer`.
  abbrev pub stage : TriggerType → ℕ
  stage peak = 1
  stage off_peak = 2
  stage night = 3
  stage weekend = 4
  stage morning = 5
  stage evening = 6
  stage _ = 0

  pub record IsDetected (kind : TriggerType) (p : PatternResult F) : Type 0 where
    pub type_of : p.pattern_type ≡ kind
    pub hours_are : p.hours ≡ hours_of kind
    pub days_are : p.days ≡ days_of kind
    pub some_cells : 1 ≤ p.sample_count
    pub few_cells : p.sample_count ≤ length p.days * length p.hours

  abbrev pub Detects : TriggerType → Option (PatternResult F) → Type 0
  Detects kind found = All (IsDetected kind) (present found)

  guarded :
      (kind : TriggerType) (b : Bool) (p : PatternResult F)
      → (b ≡ false → IsDetected kind p)
      → Detects kind (if b then none else some p)
  guarded kind true p h = tt
  guarded kind false p h = (h refl, tt)

  length-firsts : (xs : List (F × F)) → length (firsts xs) ≡ length xs
  length-firsts [] = refl
  length-firsts (x ∷ xs) = omega (arith, length-firsts xs)

  detected :
      (kind : TriggerType) (values tops : List F) (confidence : F)
      → 1 ≤ length values
      → length values ≤ length (days_of kind) * length (hours_of kind)
      → IsDetected kind (pattern_of kind (hours_of kind) (days_of kind) values tops confidence)
  unfolding pattern_of
  detected kind values tops confidence pos few = record {
    type_of = refl;
    hours_are = refl;
    days_are = refl;
    some_cells = pos;
    few_cells = few;
  }

  no_values-pos :
      {A : Type 0} (xs : List A) (b : Bool) → (no_values xs || b) ≡ false → 1 ≤ length xs
  no_values-pos [] b e = cc
  no_values-pos (x ∷ xs) b e = omega arith

  five_values-pos : (n : ℕ) (b : Bool) → (ltb n 5 || b) ≡ false → 1 ≤ n
  five_values-pos n b e = ground arith

  pub peak_Detects : (d : ProcessedData F) → Ensures (Detects peak) (detect_weekday_peak config d)
  unfolding detect_weekday_peak
  peak_Detects d =
      Ensures-bind (λ found. length found ≤ length (days_of peak) * length (hours_of peak))
        (Detects peak) (collect d.hourly_count (read_both d) (hours_of peak) (days_of peak)) _
        (length-collect d.hourly_count (read_both d) (hours_of peak) (days_of peak))
        λ found le. guarded peak _ _ λ e.
          detected peak (firsts found) (seconds found) _
            (omega (arith, no_values-pos found _ e, length-firsts found))
            (omega (arith, le, length-firsts found))

  pub offpeak_Detects :
      (d : ProcessedData F) → Ensures (Detects off_peak) (detect_weekday_offpeak d)
  unfolding detect_weekday_offpeak
  offpeak_Detects d =
      Ensures-bind (λ found. length found ≤ length (days_of off_peak) * length (hours_of off_peak))
        (Detects off_peak)
        (collect d.hourly_count (read_both d) (hours_of off_peak) (days_of off_peak)) _
        (length-collect d.hourly_count (read_both d) (hours_of off_peak) (days_of off_peak))
        λ found le. guarded off_peak _ _ λ e.
          detected off_peak (firsts found) (seconds found) _
            (omega (arith, no_values-pos found _ e, length-firsts found))
            (omega (arith, le, length-firsts found))

  pub night_Detects :
      (d : ProcessedData F) → Ensures (Detects night) (detect_weekday_night config d)
  unfolding detect_weekday_night
  night_Detects d =
      Ensures-bind (λ found. length found ≤ length (days_of night) * length (hours_of night))
        (Detects night) (collect d.hourly_count (read_avg d) (hours_of night) (days_of night)) _
        (length-collect d.hourly_count (read_avg d) (hours_of night) (days_of night))
        λ found le. guarded night _ _ λ e. detected night found found _ (no_values-pos found _ e) le

  pub weekend_Detects : (d : ProcessedData F) → Ensures (Detects weekend) (detect_weekend config d)
  unfolding detect_weekend
  weekend_Detects d =
      Ensures-bind (λ found. length found ≤ length (days_of weekend) * length (hours_of weekend))
        (Detects weekend) (collect d.hourly_count (read_avg d) (hours_of weekend) (days_of weekend))
        _ (length-collect d.hourly_count (read_avg d) (hours_of weekend) (days_of weekend))
        λ found le.
          guarded weekend _ _ λ e. detected weekend found found _ (no_values-pos found _ e) le

  pub morning_Detects : (d : ProcessedData F) → Ensures (Detects morning) (detect_morning config d)
  unfolding detect_morning
  morning_Detects d =
      Ensures-bind (λ found. length found ≤ length (days_of morning) * length (hours_of morning))
        (Detects morning) (collect d.hourly_count (read_avg d) (hours_of morning) (days_of morning))
        _ (length-collect d.hourly_count (read_avg d) (hours_of morning) (days_of morning))
        λ found le.
          guarded morning _ _
            λ e. detected morning found found _ (five_values-pos (length found) _ e) le

  pub evening_Detects : (d : ProcessedData F) → Ensures (Detects evening) (detect_evening config d)
  unfolding detect_evening
  evening_Detects d =
      Ensures-bind (λ found. length found ≤ length (days_of evening) * length (hours_of evening))
        (Detects evening) (collect d.hourly_count (read_avg d) (hours_of evening) (days_of evening))
        _ (length-collect d.hourly_count (read_avg d) (hours_of evening) (days_of evening))
        λ found le.
          guarded evening _ _
            λ e. detected evening found found _ (five_values-pos (length found) _ e) le
