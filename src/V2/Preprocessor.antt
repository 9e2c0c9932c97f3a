-- ===== src/V2/Preprocessor.antt =====
-- ml/v2/preprocessor.py: `DataPreprocessor` cleans the values, sorts them into buckets by day and hour
-- and computes the statistics.
pub mod Buckets
pub mod Days
pub mod Hourly
pub mod Clean
use smart_hpa.Prelude.{
  ℕ, Bool, ◌&&◌, List, [], ◌∷◌, ◌++◌, map, length, filter, Result, ok, raise, index_error, ◌>>=◌,
  ◌==◌, if◌then◌else◌, zero, suc, Error,
}
use smart_hpa.Float.{Float}
use smart_hpa.V2.Data.{ReplicaMetrics, is_empty, Matrix, ProcessedData}

-- `xs[i].append(v)`, or the same on a nested list by `change`.
unfoldable pub update {ℓ} : {A : Type ℓ} → (A → Result A) → List A → ℕ → Result (List A)
update change [] i = raise index_error
update change (x ∷ xs) zero = do y ← change x; ok (y ∷ xs)
update change (x ∷ xs) (suc i) = do ys ← update change xs i; ok (x ∷ ys)

unfoldable pub append_to {ℓ} : {A : Type ℓ} → A → List (List A) → ℕ → Result (List (List A))
unfolding update
append_to v = update (λ bucket. ok (bucket ++ (v ∷ [])))

-- `[[] for _ in range(n)]`
unfoldable pub empty_buckets {ℓ} : {A : Type ℓ} → ℕ → List (List A)
empty_buckets zero = []
empty_buckets (suc n) = [] ∷ empty_buckets n

unfoldable pub empty_grid {ℓ} : {A : Type ℓ} → ℕ → List (List (List A))
unfolding empty_buckets
empty_grid zero = []
empty_grid (suc n) = empty_buckets 24 ∷ empty_grid n

-- The loop over `values`: value `i` goes to the bucket of `days[i]` and `hours[i]`, if both are there.
unfoldable pub fill_grid {ℓ} :
    {A : Type ℓ} → List A → List ℕ → List ℕ → List (List (List A)) → Result (List (List (List A)))
unfolding append_to
fill_grid (v ∷ vs) (h ∷ hs) (d ∷ ds) grid = do
  grid' ← update (λ row. append_to v row h) grid d
  fill_grid vs hs ds grid'
fill_grid _ _ _ grid = ok grid

unfoldable pub fill_days {ℓ} :
    {A : Type ℓ} → List A → List ℕ → List (List A) → Result (List (List A))
unfolding append_to
fill_days (v ∷ vs) (d ∷ ds) buckets = do buckets' ← append_to v buckets d; fill_days vs ds buckets'
fill_days _ _ buckets = ok buckets

-- The dict of `_build_hourly_matrix`; `deviation` is its entry "std".
pub record HourlyMatrix (F : Type 0) : Type 0 where
  pub avg : Matrix F
  pub max : Matrix F
  pub min : Matrix F
  pub deviation : Matrix F
  pub count : Matrix ℕ

-- The dict of `_build_daily_aggregations`.
pub record DailyAggregations (F : Type 0) : Type 0 where
  pub avg : List F
  pub max : List F
  pub min : List F

-- `np.full(n, z)`
abbrev pub zeros {ℓ} : {A : Type ℓ} → A → ℕ → List A
zeros z zero = []
zeros z (suc n) = z ∷ zeros z n

-- One value for each bucket of a grid.
abbrev pub grid_map {ℓ κ} : {A : Type ℓ} {B : Type κ} → (A → B) → List (List A) → List (List B)
grid_map g = map (map g)

module _ {F : Type 0} ⦃f : Float F⦄ where
  open f use {literal, add, sub, mul, lt, le, mean, std, amin, amax, percentile, maximum}

  -- Within `outlier_std` standard deviations of the mean.
  unfoldable pub in_range : F → F → F → F → Bool
  in_range outlier_std average deviation v =
      le (sub average (mul outlier_std deviation)) v
      && le v (add average (mul outlier_std deviation))

  unfoldable pub clean_data : F → List F → List F
  unfolding in_range
  clean_data outlier_std [] = []
  clean_data outlier_std (x ∷ xs) =
      let values = x ∷ xs in
      let average = mean values in
      let deviation = std values in
      let cleaned =
        (if lt (literal 0 0) deviation
          then filter (in_range outlier_std average deviation) values
          else values) in
      map (λ v. maximum v (literal 1 0)) cleaned

  -- A statistic of a bucket, which is 0 where the bucket is empty.
  unfoldable pub or_zero : (List F → F) → List F → F
  or_zero statistic [] = literal 0 0
  or_zero statistic (x ∷ xs) = statistic (x ∷ xs)

  abbrev pub hourly_of : List (List (List F)) → HourlyMatrix F
  hourly_of buckets = record {
    avg = grid_map (or_zero mean) buckets;
    max = grid_map (or_zero amax) buckets;
    min = grid_map (or_zero amin) buckets;
    deviation = grid_map (or_zero std) buckets;
    count = grid_map length buckets;
  }

  unfoldable pub build_hourly_matrix : List F → List ℕ → List ℕ → Result (HourlyMatrix F)
  unfolding empty_grid fill_grid or_zero
  build_hourly_matrix values hours days = do
    buckets ← fill_grid values hours days (empty_grid 7)
    ok (hourly_of buckets)

  abbrev pub daily_of : List (List F) → DailyAggregations F
  daily_of buckets = record {
    avg = map (or_zero mean) buckets;
    max = map (or_zero amax) buckets;
    min = map (or_zero amin) buckets;
  }

  unfoldable pub build_daily_aggregations : List F → List ℕ → Result (DailyAggregations F)
  unfolding empty_buckets fill_days or_zero
  build_daily_aggregations values days = do
    buckets ← fill_days values days (empty_buckets 7)
    ok (daily_of buckets)

  unfoldable pub empty_processed_data : ReplicaMetrics F → ProcessedData F
  empty_processed_data metrics = record {
    raw_metrics = metrics;
    hourly_avg = zeros (zeros (literal 0 0) 24) 7;
    hourly_max = zeros (zeros (literal 0 0) 24) 7;
    hourly_min = zeros (zeros (literal 0 0) 24) 7;
    hourly_std = zeros (zeros (literal 0 0) 24) 7;
    hourly_count = zeros (zeros 0 24) 7;
    daily_avg = zeros (literal 0 0) 7;
    daily_max = zeros (literal 0 0) 7;
    daily_min = zeros (literal 0 0) 7;
    global_avg = literal 0 0;
    global_max = literal 0 0;
    global_min = literal 0 0;
    global_std = literal 0 0;
    percentile_25 = literal 0 0;
    percentile_50 = literal 0 0;
    percentile_75 = literal 0 0;
    percentile_90 = literal 0 0;
    percentile_95 = literal 0 0;
  }

  -- The `ProcessedData(...)` of `process`; the statistics of `_calculate_global_stats` are 0 where no
  -- value is left.
  abbrev pub processed_of :
      ReplicaMetrics F → List F → HourlyMatrix F → DailyAggregations F → ProcessedData F
  processed_of metrics values hourly daily = record {
    raw_metrics = metrics;
    hourly_avg = hourly.avg;
    hourly_max = hourly.max;
    hourly_min = hourly.min;
    hourly_std = hourly.deviation;
    hourly_count = hourly.count;
    daily_avg = daily.avg;
    daily_max = daily.max;
    daily_min = daily.min;
    global_avg = or_zero mean values;
    global_max = or_zero amax values;
    global_min = or_zero amin values;
    global_std = or_zero std values;
    percentile_25 = or_zero (λ xs. percentile xs 25) values;
    percentile_50 = or_zero (λ xs. percentile xs 50) values;
    percentile_75 = or_zero (λ xs. percentile xs 75) values;
    percentile_90 = or_zero (λ xs. percentile xs 90) values;
    percentile_95 = or_zero (λ xs. percentile xs 95) values;
  }

  -- `process`
  unfoldable pub preprocess : F → ReplicaMetrics F → Result (ProcessedData F)
  unfolding empty_processed_data clean_data build_hourly_matrix build_daily_aggregations
  preprocess outlier_std metrics =
      let values = clean_data outlier_std metrics.values in
      let processed : Result (ProcessedData F) = (do
        hourly ← build_hourly_matrix values metrics.hours metrics.days_of_week
        daily ← build_daily_aggregations values metrics.days_of_week
        ok (processed_of metrics values hourly daily)) in
      if is_empty metrics then ok (empty_processed_data metrics) else processed
