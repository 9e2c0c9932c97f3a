-- ===== src/V2/Preprocessor/Hourly.antt =====
-- `process`: the cells of the hourly matrices and of the daily averages.
use smart_hpa.Prelude.{
  ℕ, zero, suc, ◌<◌, ◌≡◌, refl, ap, ◌∙◌, false, List, [], ◌∷◌, ◌++◌, map, length, All, get_or, ok,
  index, arith,
}
use smart_hpa.Float.{Float}
use smart_hpa.V2.Data.{ReplicaMetrics, ProcessedData, is_empty, cell}
use smart_hpa.V2.Preprocessor.{
  empty_grid, or_zero, clean_data, grid_map, preprocess, processed_of, hourly_of, daily_of,
}
use smart_hpa.V2.Preprocessor.Buckets.{samples_at, IsGrid, bucket, fill_grid_lem, All-get_or}
use smart_hpa.V2.Preprocessor.Days.{
  samples_of_day, bucket-empty_grid, empty_grid-IsGrid, fill_days_lem,
}

index-map {ℓ κ} :
    {A : Type ℓ} {B : Type κ} (g : A → B) (xs : List A) (i : ℕ) (z : A)
    → i < length xs
    → index (map g xs) i ≡ ok (g (get_or xs i z))
index-map g [] i z h = absurd (omega arith)
index-map g (x ∷ xs) zero z h = refl
index-map g (x ∷ xs) (suc i) z h = index-map g xs i z (omega arith)

module _ {F : Type 0} where
  cell-grid_map {κ} :
      {B : Type κ} (g : List F → B) (grid : List (List (List F))) (d h : ℕ)
      → IsGrid grid
      → d < 7
      → h < 24
      → cell (grid_map g grid) d h ≡ ok (g (bucket grid d h))
  unfolding cell
  cell-grid_map g grid d h sized dl hl =
      let wide : length (get_or grid d []) ≡ 24 =
        All-get_or (λ r. length r ≡ 24) grid d [] (omega (arith, sized.0)) sized.1 in
      rw (index-map (map g) grid d [] (omega (arith, sized.0)))
        (index-map g (get_or grid d []) h [] (omega (arith, wide)))

module _ {F : Type 0} ⦃f : Float F⦄ where
  -- The cells of the result over the samples `vs`, `hs` and `ds`.
  pub record IsHourly (vs : List F) (hs ds : List ℕ) (p : ProcessedData F) : Type 0 where
    pub counts :
        (d h : ℕ) → d < 7 → h < 24 → cell p.hourly_count d h ≡ ok (length (samples_at d h vs hs ds))
    pub avgs :
        (d h : ℕ)
        → d < 7
        → h < 24
        → cell p.hourly_avg d h ≡ ok (or_zero f.mean (samples_at d h vs hs ds))
    pub maxs :
        (d h : ℕ)
        → d < 7
        → h < 24
        → cell p.hourly_max d h ≡ ok (or_zero f.amax (samples_at d h vs hs ds))
    pub mins :
        (d h : ℕ)
        → d < 7
        → h < 24
        → cell p.hourly_min d h ≡ ok (or_zero f.amin (samples_at d h vs hs ds))
    pub deviations :
        (d h : ℕ)
        → d < 7
        → h < 24
        → cell p.hourly_std d h ≡ ok (or_zero f.std (samples_at d h vs hs ds))
    pub daily_avgs :
        (d : ℕ) → d < 7 → index p.daily_avg d ≡ ok (or_zero f.mean (samples_of_day d vs ds))

  -- On metrics with days below 7 and hours below 24, and not empty, `process` returns, and each cell of
  -- an hourly matrix, and of the daily averages, is the count or the statistic, 0 where there are none, of
  -- the cleaned values at those places at which the arrays of days and hours have the cell's day and
  -- hour. These arrays are those of all samples: behind a dropped outlier, a value is taken with the
  -- day and hour of an earlier sample.
  pub preprocess-IsHourly :
      (k : F) (m : ReplicaMetrics F)
      → is_empty m ≡ false
      → All (λ d. d < 7) m.days_of_week
      → All (λ h. h < 24) m.hours
      → (p : ProcessedData F) × (preprocess k m ≡ ok p)
        × IsHourly (clean_data k m.values) m.hours m.days_of_week p
  unfolding preprocess
  preprocess-IsHourly k m full dl hl =
      let vs = clean_data k m.values in
      let (grid, ge, sized, all) =
        fill_grid_lem vs m.hours m.days_of_week (empty_grid 7) dl hl (empty_grid-IsGrid F) in
      let (days, de, len, each) = fill_days_lem vs m.days_of_week dl in
      let at : (d h : ℕ) → bucket grid d h ≡ samples_at d h vs m.hours m.days_of_week = λ d h.
        all d h ∙ ap (λ b. b ++ samples_at d h vs m.hours m.days_of_week) (bucket-empty_grid d h) in
      (
        processed_of m vs (hourly_of grid) (daily_of days),
        rw (full, ge, de),
        record {
          counts = λ d h dlt hlt.
              cell-grid_map length grid d h sized dlt hlt ∙ ap (λ b. ok (length b)) (at d h);
          avgs = λ d h dlt hlt.
              cell-grid_map (or_zero f.mean) grid d h sized dlt hlt
              ∙ ap (λ b. ok (or_zero f.mean b)) (at d h);
          maxs = λ d h dlt hlt.
              cell-grid_map (or_zero f.amax) grid d h sized dlt hlt
              ∙ ap (λ b. ok (or_zero f.amax b)) (at d h);
          mins = λ d h dlt hlt.
              cell-grid_map (or_zero f.amin) grid d h sized dlt hlt
              ∙ ap (λ b. ok (or_zero f.amin b)) (at d h);
          deviations = λ d h dlt hlt.
              cell-grid_map (or_zero f.std) grid d h sized dlt hlt
              ∙ ap (λ b. ok (or_zero f.std b)) (at d h);
          daily_avgs = λ d dlt.
              index-map (or_zero f.mean) days d [] (omega (arith, len))
              ∙ ap (λ b. ok (or_zero f.mean b)) (each d);
        },
      )
