-- ===== src/V2/Model/Total.antt =====
-- `infer` raises no exception on data with seven days of 24 hours.
use smart_hpa.Prelude.{
  ℕ, ◌≤◌, ◌<◌, [], ◌++◌, range, filter, All, All-append, Returns, Returns-map, arith, Bool-cases,
  inl, inr,
}
use smart_hpa.Float.{Float}
use smart_hpa.V2.Config.{ModelConfig}
use smart_hpa.V2.Data.{ProcessedData, cell}
use smart_hpa.V2.Model.{
  collect, read_avg, read_both, detect_weekday_peak, detect_weekday_offpeak, detect_weekday_night,
  detect_weekend, detect_morning, detect_evening, present, is_confident, infer,
}
use smart_hpa.V2.Model.Collect.{IsReadable, collect-Returns, All-range}

module _ {F : Type 0} ⦃f : Float F⦄ (config : ModelConfig F) where
  -- Hours of a day and days of a week.
  pub record IsUsable : Type 0 where
    pub business_start : config.business_hours_start ≤ 24
    pub business_end : config.business_hours_end ≤ 24
    pub night_start : config.night_hours_start ≤ 24
    pub night_end : config.night_hours_end ≤ 24
    pub weekend : All (λ day. day < 7) config.weekend_days

  pub record IsShaped (d : ProcessedData F) : Type 0 where
    pub counts : (i j : ℕ) → i < 7 → j < 24 → Returns (cell d.hourly_count i j)
    pub avgs : (i j : ℕ) → i < 7 → j < 24 → Returns (cell d.hourly_avg i j)
    pub maxs : (i j : ℕ) → i < 7 → j < 24 → Returns (cell d.hourly_max i j)

  module _ (u : IsUsable) (d : ProcessedData F) (s : IsShaped d) where
    avg_readable : IsReadable d.hourly_count (read_avg d)
    avg_readable i j a b = (s.counts i j a b, s.avgs i j a b)

    both_readable : IsReadable d.hourly_count (read_both d)
    both_readable i j a b =
        let (x, xe) = s.avgs i j a b in
        let (y, ye) = s.maxs i j a b in (s.counts i j a b, ((x, y), rw (xe, ye)))

    weekdays : All (λ day. day < 7) (range 0 5)
    weekdays = omega arith

    peak-Returns : Returns (detect_weekday_peak config d)
    unfolding detect_weekday_peak
    peak-Returns =
        Returns-map
          (collect d.hourly_count (read_both d)
            (range config.business_hours_start config.business_hours_end) (range 0 5))
          _
          (collect-Returns d.hourly_count (read_both d) both_readable
            (range config.business_hours_start config.business_hours_end) (range 0 5)
            (All-range config.business_hours_start config.business_hours_end 24 u.business_end)
            weekdays)

    offpeak-Returns : Returns (detect_weekday_offpeak d)
    unfolding detect_weekday_offpeak
    offpeak-Returns =
        Returns-map (collect d.hourly_count (read_both d) (range 17 24 ++ range 0 9) (range 0 5)) _
          (collect-Returns d.hourly_count (read_both d) both_readable (range 17 24 ++ range 0 9)
            (range 0 5) (omega arith) weekdays)

    night-Returns : Returns (detect_weekday_night config d)
    unfolding detect_weekday_night
    night-Returns =
        Returns-map
          (collect d.hourly_count (read_avg d)
            (range config.night_hours_start 24 ++ range 0 config.night_hours_end) (range 0 5))
          _
          (collect-Returns d.hourly_count (read_avg d) avg_readable
            (range config.night_hours_start 24 ++ range 0 config.night_hours_end) (range 0 5)
            (All-append (λ h. h < 24) (range config.night_hours_start 24)
              (range 0 config.night_hours_end)
              (All-range config.night_hours_start 24 24 (omega arith))
              (All-range 0 config.night_hours_end 24 u.night_end))
            weekdays)

    weekend-Returns : Returns (detect_weekend config d)
    unfolding detect_weekend
    weekend-Returns =
        Returns-map (collect d.hourly_count (read_avg d) (range 0 24) (config.weekend_days)) _ (
          collect-Returns d.hourly_count (read_avg d) avg_readable (range 0 24)
            (config.weekend_days) (omega arith) u.weekend)

    morning-Returns : Returns (detect_morning config d)
    unfolding detect_morning
    morning-Returns =
        Returns-map
          (collect d.hourly_count (read_avg d) (range 6 config.business_hours_start) (range 0 5)) _
          (collect-Returns d.hourly_count (read_avg d) avg_readable
            (range 6 config.business_hours_start) (range 0 5)
            (All-range 6 config.business_hours_start 24 u.business_start) weekdays)

    evening-Returns : Returns (detect_evening config d)
    unfolding detect_evening
    evening-Returns =
        Returns-map
          (collect d.hourly_count (read_avg d)
            (range config.business_hours_end config.night_hours_start) (range 0 5))
          _
          (collect-Returns d.hourly_count (read_avg d) avg_readable
            (range config.business_hours_end config.night_hours_start) (range 0 5)
            (All-range config.business_hours_end config.night_hours_start 24 u.night_start)
            weekdays)

    -- With hours and days of the configuration in range, and matrices of seven days and 24 hours,
    -- `infer` returns patterns and raises nothing.
    pub infer-Returns : Returns (infer config d)
    unfolding infer
    infer-Returns = elim (Bool-cases (f.eq d.global_max (f.literal 0 0))) [
      | inl e ↦ ([], rw e)
      | inr e ↦
          let (a, ae) = peak-Returns in
          let (b, be) = offpeak-Returns in
          let (c, ce) = night-Returns in
          let (w, we) = weekend-Returns in
          let (m, me) = morning-Returns in
          let (v, ve) = evening-Returns in
          (
            filter (is_confident config) (
                present a ++ (present b ++ (present c ++ (present w ++ (present m ++ present v))))),
            rw (e, ae, be, ce, we, me, ve),
          )
    ]
