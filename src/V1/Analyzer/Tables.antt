-- ===== src/V1/Analyzer/Tables.antt =====
-- The tables of `analyze` in ml/pattern_analyzer.py, and the operations on them that pandas and
-- scikit-learn have.
use smart_hpa.Prelude.{ℕ, Bool, List, Result}
use smart_hpa.V1.Prometheus.{Frame}

-- A row of the unified time series. A mean whose column is not there has no meaning.
pub record Unified (F : Type 0) : Type 0 where
  pub timestamp : ℕ
  pub cpu_mean : F
  pub memory_mean : F
  pub replicas_mean : F

-- A row with the features of its time.
pub record Featured (F : Type 0) : Type 0 where
  pub unified : Unified F
  pub hour : ℕ
  pub minute : ℕ
  pub day_of_week : ℕ
  pub is_weekend : ℕ
  pub time_of_day : F
  pub time_slot : ℕ
  pub week : ℕ

-- A row of the data grouped by day and time slot, with the means of the feature columns.
pub record Slot (F : Type 0) : Type 0 where
  pub day_of_week : ℕ
  pub time_slot : ℕ
  pub cpu_mean : F
  pub memory_mean : F
  pub replicas_mean : F
  pub time_of_day : F
  pub is_weekend : F

-- Which of the columns `cpu_mean`, `memory_mean` and `replicas_mean` there are.
pub record Present : Type 0 where
  pub has_cpu : Bool
  pub has_memory : Bool
  pub has_replicas : Bool

pub record Tools (F : Type 0) : Type 0 where
  -- `groupby("timestamp").agg(...)` of each frame, their outer merge on the timestamp, sorted by it, and
  -- `ffill().bfill()`.
  pub unify : List (Frame F) → Result (List (Unified F))
  -- `ts.isocalendar().week`
  pub week : ℕ → ℕ
  -- `groupby(["day_of_week", "time_slot"]).agg(...)`
  pub group : List (Featured F) → List (Slot F)
  -- `scaler.fit_transform(X)`
  pub scale : List (List F) → Result (List (List F))
  -- `KMeans(n_clusters=k, ...).fit_predict(X)`, and `silhouette_score(X, labels)` of its labels.
  pub fit_predict : List (List F) → ℕ → Result (List ℕ)
  pub silhouette : List (List F) → List ℕ → Result F
  -- `series.std()`, the deviation of a sample.
  pub series_std : List F → F
