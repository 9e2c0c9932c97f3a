-- ===== src/V1/Analyzer/Detect.antt =====
-- ml/pattern_analyzer.py: `analyze`, from the metrics to the merged patterns.
use mathlib.Core.List.{flat_map}
use smart_hpa.Prelude.{
  ℕ, ◌+◌, ◌*◌, ◌/◌, Bool, not, ◌||◌, List, [], ◌∷◌, ◌++◌, map, length, filter, range, Result, ok,
  traverse, ◌>>=◌, min_of, max_of, ltb, leb, ◌==◌, if◌then◌else◌,
}
use smart_hpa.Prelude.Int.{ℤ, pos, max_ℤ}
use smart_hpa.Prelude.Sort.{sorted}
use smart_hpa.Float.{Float}
use smart_hpa.Clock.{hour, minute, weekday}
use smart_hpa.V1.Config.{AnalysisConfig}
use smart_hpa.V1.Naming.{TimePattern}
use smart_hpa.V1.Prometheus.{Frame}
use smart_hpa.V1.Prometheus.Sample.{MetricsData}
use smart_hpa.V1.Analyzer.Tables.{Unified, Featured, Slot, Present, Tools}
use smart_hpa.V1.Analyzer.{
  Row, slot_times, distinct, find_optimal_clusters, refine_patterns, merge_similar_patterns,
}

module _ {F : Type 0} ⦃f : Float F⦄ (tools : Tools F) where
  open f use {literal, of_int, add, sub, div, lt, mean, amax, int, ceil}

  abbrev pub is_full : Frame F → Bool
  is_full frame = not (length frame == 0)

  abbrev pub present : MetricsData F → Present
  present metrics = record {
    has_cpu = is_full metrics.cpu;
    has_memory = is_full metrics.memory;
    has_replicas = is_full metrics.replicas;
  }

  -- `_prepare_time_series`: empty frames are passed over, and without frames there are no rows.
  unfoldable pub prepare_time_series : MetricsData F → Result (List (Unified F))
  prepare_time_series metrics =
      let dfs = filter is_full (metrics.cpu ∷ metrics.memory ∷ metrics.replicas ∷ []) in
      let result = tools.unify dfs in if length dfs == 0 then ok [] else result

  -- `_extract_time_features` of one row.
  unfoldable pub time_features : Unified F → Featured F
  time_features row =
      let t = row.timestamp in
      record {
        unified = row;
        hour = hour t;
        minute = minute t;
        day_of_week = weekday t;
        is_weekend = if leb 5 (weekday t) then 1 else 0;
        time_of_day = add (of_int (pos (hour t))) (div (of_int (pos (minute t))) (literal 600 1));
        time_slot = hour t * 4 + minute t / 15;
        week = tools.week t;
      }

  -- `grouped[feature_cols].values`, a row of it.
  unfoldable pub feature_values : Present → Slot F → List F
  feature_values columns slot =
      (if columns.has_cpu then slot.cpu_mean ∷ [] else [])
      ++ ((if columns.has_memory then slot.memory_mean ∷ [] else [])
          ++ ((if columns.has_replicas then slot.replicas_mean ∷ [] else [])
              ++ (slot.time_of_day ∷ slot.is_weekend ∷ [])))

  -- `cluster_data.get(column, pd.Series([default]))`
  abbrev pub column_or : Bool → List F → F → List F
  column_or there values default = if there then values else default ∷ []

  -- `max(0.5, 1.0 - cv)` of the cpu's means, or 0.7 without them, and at most 1.
  unfoldable pub cluster_confidence : Present → List F → F
  cluster_confidence columns cpu =
      let cv = div (tools.series_std cpu) (add (mean cpu) (literal 1 10)) in
      let steady = sub (literal 10 1) cv in
      let most = (if lt (literal 5 1) steady then steady else literal 5 1) in
      let confidence = (if columns.has_cpu then most else literal 7 1) in
      if lt confidence (literal 10 1) then confidence else literal 10 1

  abbrev pub cluster_replicas : Present → List (Slot F) → List F
  cluster_replicas columns cluster =
      column_or columns.has_replicas (map (λ s. s.replicas_mean) cluster) (of_int (pos 1))

  -- The `TimePattern(...)` of a cluster between two slots.
  abbrev pub cluster_pattern : Present → List (Slot F) → ℕ → ℕ → ℤ → TimePattern F
  cluster_pattern columns cluster start_slot end_slot peak_replicas =
      let times = slot_times start_slot end_slot in
      let cpu = column_or columns.has_cpu (map (λ s. s.cpu_mean) cluster) (of_int (pos 0)) in
      let memory =
        column_or columns.has_memory (map (λ s. s.memory_mean) cluster) (of_int (pos 0)) in
      record {
        start_hour = times.0.0;
        start_minute = times.0.1;
        end_hour = times.1.0;
        end_minute = times.1.1;
        days = sorted (λ x y. ltb y x) (distinct (map (λ (s : Slot F). s.day_of_week) cluster));
        avg_cpu = mean cpu;
        avg_memory = mean memory;
        avg_replicas = mean (cluster_replicas columns cluster);
        peak_replicas = max_ℤ (pos 1) peak_replicas;
        confidence = cluster_confidence columns cpu;
      }

  -- `_extract_pattern_from_cluster`, for a cluster of rows.
  unfoldable pub extract_pattern : Present → List (Slot F) → Result (TimePattern F)
  unfolding slot_times cluster_confidence sorted max_ℤ
  extract_pattern columns cluster = do
    start_slot ← min_of (map (λ s. s.time_slot) cluster)
    end_slot ← max_of (map (λ s. s.time_slot) cluster)
    peak_replicas ← int (ceil (amax (cluster_replicas columns cluster)))
    ok (cluster_pattern columns cluster start_slot end_slot peak_replicas)

  -- The patterns that a cluster gives: none if it is empty.
  unfoldable pub patterns_of : Present → List (Slot F) → Result (List (TimePattern F))
  unfolding extract_pattern
  patterns_of columns [] = ok []
  patterns_of columns (slot ∷ slots) = do
    pattern ← extract_pattern columns (slot ∷ slots)
    ok (pattern ∷ [])

  -- `grouped[grouped["cluster"] == id]`
  abbrev pub cluster_rows : ℕ → List (Slot F) → List ℕ → List (Slot F)
  cluster_rows id (slot ∷ slots) (c ∷ clusters) =
      let rest = cluster_rows id slots clusters in if c == id then slot ∷ rest else rest
  cluster_rows id _ _ = []

  -- The loop over the clusters.
  unfoldable pub cluster_patterns :
      Present → List (Slot F) → List ℕ → ℕ → Result (List (TimePattern F))
  unfolding patterns_of
  cluster_patterns columns grouped clusters best_k = do
    patterns ←
        traverse (λ id. patterns_of columns (cluster_rows id grouped clusters)) (range 0 best_k)
    ok (flat_map (λ ps. ps) patterns)

  -- `best_k`; `minus_one` is the float with which the search begins.
  unfoldable pub best_clusters : F → AnalysisConfig F → List (List F) → ℕ
  unfolding find_optimal_clusters
  best_clusters minus_one config scaled =
      (find_optimal_clusters
        (λ k. tools.fit_predict scaled k >>= λ labels. ok (length (distinct labels)))
        (λ k. tools.fit_predict scaled k >>= λ labels. tools.silhouette scaled labels) minus_one
        config (length scaled)).0

  -- `_detect_patterns_with_clustering`
  unfoldable pub detect_patterns :
      F → AnalysisConfig F → Present → List (Featured F) → Result (List (TimePattern F))
  unfolding feature_values best_clusters cluster_patterns
  detect_patterns minus_one config columns rows =
      let grouped = tools.group rows in
      let detected : Result (List (TimePattern F)) = (do
        scaled ← tools.scale (map (feature_values columns) grouped)
        let best_k = best_clusters minus_one config scaled
        clusters ← tools.fit_predict scaled best_k
        cluster_patterns columns grouped clusters best_k) in
      if not (columns.has_cpu || (columns.has_memory || columns.has_replicas))
      then ok []
      else if ltb (length grouped) 3
      then ok []
      else detected

  abbrev pub row_of : Featured F → Row F
  row_of row = record {
    hour = row.hour;
    day_of_week = row.day_of_week;
    replicas_mean = row.unified.replicas_mean;
  }

  -- `analyze`
  unfoldable pub analyze : F → AnalysisConfig F → MetricsData F → Result (List (TimePattern F))
  unfolding prepare_time_series time_features detect_patterns refine_patterns merge_similar_patterns
  analyze minus_one config metrics = do
    df ← prepare_time_series metrics
    let columns = present metrics
    let rows = map time_features df
    let analyzed : Result (List (TimePattern F)) = (do
      patterns ← detect_patterns minus_one config columns rows
      refined ← refine_patterns config columns.has_replicas (map row_of rows) patterns
      ok (merge_similar_patterns refined))
    if length df == 0 then ok [] else analyzed
