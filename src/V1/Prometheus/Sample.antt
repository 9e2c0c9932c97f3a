-- ===== src/V1/Prometheus/Sample.antt =====
-- The sample data of ml/prometheus_client.py, and the fetchers that fall back to it.
use Prim.Native.Char.{code}
use Prim.Native.String.{String}
use mathlib.Core.List.{zip_with, flat_map}
use smart_hpa.Prelude.{
  ℕ, Bool, false, ◌&&◌, ◌||◌, List, [], ◌∷◌, length, Option, none, some, Result, ok, raise,
  traverse, ◌>>=◌, ltb, leb, ◌==◌, if◌then◌else◌, type_error,
}
use smart_hpa.Prelude.Int.{ℤ, pos}
use smart_hpa.Prelude.Text.{concat}
use smart_hpa.Prelude.Sort.{sorted}
use smart_hpa.Float.{Float}
use smart_hpa.Host.{Host}
use smart_hpa.Clock.{hour, weekday, days, sub_delta}
use smart_hpa.V1.Config.{MetricLabels, labels_to_selector}
use smart_hpa.V1.Analyzer.{distinct}
use smart_hpa.V1.Prometheus.{
  Api, Frame, Columns, Cell, time, number, string, get_cell, query_range, first_frame,
}

-- `c in s` and `s.replace(c, "")` for a character of that code.
abbrev pub has_char : ℕ → String → Bool
has_char c String.[] = false
has_char c (String.◌∷◌ d s) = (code d == c) || has_char c s

abbrev pub without : ℕ → String → String
without c String.[] = ""
without c (String.◌∷◌ d s) =
    let rest = without c s in if code d == c then rest else String.◌∷◌ d rest

pub data Metric : Type 0 where
  cpu memory replicas : Metric

abbrev pub metric_type : Metric → String
metric_type cpu = "cpu"
metric_type memory = "memory"
metric_type replicas = "replicas"

-- `int(step.replace("m", "").replace("h", "")) if "m" in step else 60`
unfoldable pub step_minutes_of : {F : Type 0} → Api F → String → Result ℤ
step_minutes_of api step =
    if has_char b'm' step then api.parse_int (without b'h' (without b'm' step)) else ok (pos 60)

module _ {F : Type 0} {S : Type 0} ⦃f : Float F⦄ (api : Api F) (host : Host F S) where
  open f use {literal, add, mul, maximum}

  abbrev pub flag : Bool → F
  flag b = if b then literal 1 0 else literal 0 0

  -- 9 to 17 o'clock, both included, as a number.
  abbrev pub business_hours : ℕ → F
  business_hours t = flag (leb 9 (hour t) && leb (hour t) 17)

  abbrev pub on_weekday : ℕ → F
  on_weekday t = flag (ltb (weekday t) 5)

  -- `base + peak * business_hours * weekday + work * weekday`
  abbrev pub pattern_value : F → F → F → ℕ → F
  pattern_value base peak work t =
      add (add base (mul (mul peak (business_hours t)) (on_weekday t))) (mul work (on_weekday t))

  unfoldable pub sample_value : Metric → ℕ → F → F
  sample_value cpu t noise =
      maximum (literal 1 1)
        (add (pattern_value (literal 10 1) (literal 20 1) (literal 5 1) t) noise)
  sample_value memory t noise = maximum (literal 500_000_000 0) (
      add
        (pattern_value (literal 1_000_000_000 0) (literal 2_000_000_000 0) (literal 500_000_000 0)
          t)
        noise)
  sample_value replicas t noise =
      maximum (literal 1 0)
        (host.rint (add (pattern_value (literal 2 0) (literal 5 0) (literal 2 0) t) noise))

  -- The standard deviation of the noise.
  abbrev pub deviation : Metric → F
  deviation cpu = literal 2 1
  deviation memory = literal 200_000_000 0
  deviation replicas = literal 5 1

  abbrev pub sample_row : Metric → ℕ → F → Columns F
  sample_row kind t value =
      ("timestamp", time t)
      ∷ ("value", number value)
      ∷ ("metric_type", string (metric_type kind))
      ∷ ("series_id", string (concat ("sample_" ∷ metric_type kind ∷ [])))
      ∷ ("namespace", string "default")
      ∷ []

  unfoldable pub generate_sample_data : ℕ → ℕ → String → Metric → S → Result (Frame F × S)
  unfolding step_minutes_of sample_value
  generate_sample_data start end step kind s = do
    step_minutes ← step_minutes_of api step
    timestamps ← api.date_range start end step_minutes
    seeded ← host.seed (some 42) s
    noise ← host.normals (literal 0 0) (deviation kind) (length timestamps) seeded
    ok (zip_with (λ t n. sample_row kind t (sample_value kind t n)) timestamps noise.0, noise.1)

  unfoldable pub queries_of : Metric → String → List String
  unfolding concat
  queries_of cpu selector =
      concat (
        "sum(rate(container_cpu_usage_seconds_total{" ∷ selector
        ∷ "}[5m])) by (namespace, pod, container)" ∷ [])
      ∷ concat
          ("sum(rate(container_cpu_usage_seconds_total{" ∷ selector ∷ "}[5m])) by (namespace)" ∷ [])
      ∷ []
  queries_of memory selector =
      concat
        ("sum(container_memory_usage_bytes{" ∷ selector ∷ "}) by (namespace, pod, container)" ∷ [])
      ∷ concat (
          "sum(container_memory_working_set_bytes{" ∷ selector ∷ "}) by (namespace, pod, container)"
          ∷ [])
      ∷ []
  queries_of replicas selector =
      concat ("kube_deployment_status_replicas{" ∷ selector ∷ "}" ∷ [])
      ∷ concat ("kube_horizontalpodautoscaler_status_current_replicas{" ∷ selector ∷ "}" ∷ [])
      ∷ concat ("kube_deployment_status_replicas_ready{" ∷ selector ∷ "}" ∷ [])
      ∷ []

  -- The frame that was found, or else the sample data.
  abbrev pub found_or : Option (Frame F) → S → Result (Frame F × S) → Result (Frame F × S)
  found_or (some frame) s sample = ok (frame, s)
  found_or none s sample = sample

  -- `fetch_cpu_metrics`, `fetch_memory_metrics` and `fetch_replica_metrics` at the time `now`.
  unfoldable pub fetch_metrics : Metric → MetricLabels → ℕ → String → ℕ → S → Result (Frame F × S)
  unfolding sub_delta labels_to_selector queries_of query_range first_frame generate_sample_data
  fetch_metrics kind labels days_back step now s = do
    start ← sub_delta now (days days_back)
    let found =
        first_frame (metric_type kind) (λ query. query_range api query start now step)
          (queries_of kind (labels_to_selector labels))
    found_or found s (generate_sample_data start now step kind s)

-- A text among the times cannot be sorted with them.
abbrev pub time_of : {F : Type 0} → Option (Cell F) → Result ℕ
time_of (some (time t)) = ok t
time_of _ = raise type_error

-- `df["timestamp"].tolist()`
unfoldable pub times_of : {F : Type 0} → Frame F → Result (List ℕ)
unfolding get_cell
times_of frame = traverse (λ row. time_of (get_cell "timestamp" row)) frame

pub record MetricsData (F : Type 0) : Type 0 where
  pub cpu : Frame F
  pub memory : Frame F
  pub replicas : Frame F
  pub timestamps : List ℕ
  pub labels : List (String × String)

module _ {F : Type 0} {S : Type 0} ⦃f : Float F⦄ (api : Api F) (host : Host F S) where
  -- `now` gives the values of the three calls of `datetime.utcnow()`.
  unfoldable pub fetch_all_metrics :
      MetricLabels → ℕ → String → (Metric → ℕ) → S → Result (MetricsData F × S)
  unfolding fetch_metrics times_of sorted
  fetch_all_metrics labels days_back step now s = do
    cpu_df ← fetch_metrics api host cpu labels days_back step (now cpu) s
    memory_df ← fetch_metrics api host memory labels days_back step (now memory) cpu_df.1
    replicas_df ← fetch_metrics api host replicas labels days_back step (now replicas) memory_df.1
    all_timestamps ← traverse times_of (cpu_df.0 ∷ memory_df.0 ∷ replicas_df.0 ∷ [])
    ok (
      record {
        cpu = cpu_df.0;
        memory = memory_df.0;
        replicas = replicas_df.0;
        timestamps = sorted (λ x y. ltb y x) (distinct (flat_map (λ ts. ts) all_timestamps));
        labels = labels.custom_labels;
      },
      replicas_df.1,
    )
