-- ===== src/V2/Data.antt =====
-- The data that the stages of ml/v2 hand on: `ReplicaMetrics` of ml/v2/data_fetcher.py and
-- `ProcessedData` of ml/v2/preprocessor.py. The numpy arrays are lists, row by row.
use smart_hpa.Prelude.{ℕ, String, Bool, List, length, ◌==◌, Result, index, ◌>>=◌}

pub record ReplicaMetrics (F : Type 0) : Type 0 where
  pub timestamps : List F
  pub values : List F
  pub hours : List ℕ
  pub days_of_week : List ℕ
  pub dates : List String

abbrev pub count : {F : Type 0} → ReplicaMetrics F → ℕ
count m = length m.timestamps

abbrev pub is_empty : {F : Type 0} → ReplicaMetrics F → Bool
is_empty m = count m == 0

abbrev pub Matrix : Type 0 → Type 0
Matrix A = List (List A)

-- `m[d, h]`
unfoldable pub cell {ℓ} : {A : Type ℓ} → List (List A) → ℕ → ℕ → Result A
cell m d h = do row ← index m d; index row h

pub record ProcessedData (F : Type 0) : Type 0 where
  pub raw_metrics : ReplicaMetrics F
  pub hourly_avg : Matrix F
  pub hourly_max : Matrix F
  pub hourly_min : Matrix F
  pub hourly_std : Matrix F
  pub hourly_count : Matrix ℕ
  pub daily_avg : List F
  pub daily_max : List F
  pub daily_min : List F
  pub global_avg : F
  pub global_max : F
  pub global_min : F
  pub global_std : F
  pub percentile_25 : F
  pub percentile_50 : F
  pub percentile_75 : F
  pub percentile_90 : F
  pub percentile_95 : F
