-- ===== src/V2/Fetcher.antt =====
-- ml/v2/data_fetcher.py: `PrometheusDataFetcher`. The HTTP session, Python's `float` on texts, the
-- calendar and numpy's sorting functions are not part of the repository: they are the fields of `Client`.
pub mod Select
pub mod Aligned
pub mod Sample
pub mod Fallback
use Prim.Native.Nat.{zero, suc}
use mathlib.Core.List.{flat_map}
use smart_hpa.Prelude.{
  ℕ, Bool, not, true, false, String, List, [], ◌∷◌, ◌++◌, map, length, filter, Result, ok, raise,
  Error, Option, unless_error, first_error, value_error, ◌>>=◌, traverse, index, if◌then◌else◌,
  ◌==◌,
}
use smart_hpa.Prelude.Text.{str_eq, concat, decimal}
use smart_hpa.Float.{Float}
use smart_hpa.V2.Config.{PrometheusConfig, FetchConfig, to_label_selector}
use smart_hpa.V2.Data.{ReplicaMetrics, is_empty}
use smart_hpa.V2.Preprocessor.{update, zeros}

-- A decoded answer of the range query API: each series is a list of timestamps and value texts.
pub record Response (F : Type 0) : Type 0 where
  pub status : String
  pub result : List (List (F × String))

pub record Client (F : Type 0) : Type 0 where
  -- `session.get(...)`, `raise_for_status()` and `json()` for a query and a step.
  pub get : String → String → Result (Response F)
  -- `float(text)`
  pub parse : String → Result F
  pub nan : F
  pub is_nan : F → Bool
  -- The exception of `datetime.utcfromtimestamp(ts)`, as for NaN and beyond the calendar, and the fields of
  -- its result where there is none.
  pub utc_error : F → Option Error
  pub hour : F → ℕ
  pub weekday : F → ℕ
  pub date : F → String
  -- `np.argsort(xs)` and `np.unique(xs, return_inverse=True)`
  pub argsort : List F → List ℕ
  pub unique : List F → List F × List ℕ

-- `xs[idx]` with an array of indices.
abbrev pub select {ℓ} : {A : Type ℓ} → List A → List ℕ → Result (List A)
select xs = traverse (index xs)

unfoldable pub empty_metrics : {F : Type 0} → ReplicaMetrics F
empty_metrics = record { timestamps = []; values = []; hours = []; days_of_week = []; dates = [] }

-- One turn of the loop over the queries: an exception or an empty answer goes on to the next one.
abbrev pub usable_or :
    {F : Type 0} → Result (ReplicaMetrics F) → ReplicaMetrics F → ReplicaMetrics F
usable_or (ok metrics) rest = if is_empty metrics then rest else metrics
usable_or (raise e) rest = rest

unfoldable pub try_queries :
    {F : Type 0}
    → (String → Result (ReplicaMetrics F))
    → List String
    → ReplicaMetrics F
    → ReplicaMetrics F
try_queries run [] sample = sample
try_queries run (query ∷ queries) sample =
    let rest = try_queries run queries sample in usable_or (run query) rest

module _ {F : Type 0} ⦃f : Float F⦄ (client : Client F) where
  open client use {parse, nan, is_nan, utc_error, hour, weekday, date, argsort, unique}

  -- `float(val)`, or NaN on a `ValueError`.
  unfoldable pub value_or_nan : String → Result F
  value_or_nan text = elim (parse text) [
    | ok v ↦ ok v
    | raise e ↦ elim e [ value_error ↦ ok nan | other ↦ raise other ]
  ]

  abbrev pub dated_metrics : List F → List F → ReplicaMetrics F
  dated_metrics timestamps values = record {
    timestamps = timestamps;
    values = values;
    hours = map hour timestamps;
    days_of_week = map weekday timestamps;
    dates = map date timestamps;
  }

  unfoldable pub build_metrics : List F → List F → Result (ReplicaMetrics F)
  build_metrics timestamps values =
      unless_error (first_error utc_error timestamps) (dated_metrics timestamps values)

  -- `aggregated[idx] = max(aggregated[idx], values[i])` for each value.
  unfoldable pub aggregate : List ℕ → List F → List F → Result (List F)
  unfolding update
  aggregate (i ∷ indices) (v ∷ values) aggregated = do
    aggregated' ← update (λ old. ok (if f.lt old v then v else old)) aggregated i
    aggregate indices values aggregated'
  aggregate _ _ aggregated = ok aggregated

  abbrev pub read_point : F × String → Result (F × F)
  read_point point = do v ← value_or_nan point.1; ok (point.0, v)

  -- The points that are not NaN, in order of time, one value for each timestamp.
  unfoldable pub parse_response : List (List (F × String)) → Result (ReplicaMetrics F)
  unfolding value_or_nan empty_metrics build_metrics aggregate
  parse_response result = do
    points ← traverse read_point (flat_map (λ series. series) result)
    let kept = filter (λ p. not (is_nan p.1)) points
    let order = argsort (map (λ p. p.0) kept)
    timestamps ← select (map (λ p. p.0) kept) order
    values ← select (map (λ p. p.1) kept) order
    let unique_ts = (unique timestamps).0
    aggregated ← aggregate (unique timestamps).1 values (zeros (f.literal 0 0) (length unique_ts))
    let built = build_metrics unique_ts aggregated
    if length points == 0 then ok empty_metrics else built

  unfoldable pub query_range : String → String → Result (ReplicaMetrics F)
  unfolding parse_response
  query_range query step = do
    response ← client.get query step
    let parsed = parse_response response.result
    if str_eq response.status "success" then parsed else raise value_error

  -- `sample` is what `_generate_sample_data` returns.
  unfoldable pub fetch : PrometheusConfig → FetchConfig → ReplicaMetrics F → ReplicaMetrics F
  unfolding try_queries query_range to_label_selector concat decimal
  fetch config fetch_config sample =
      let step = concat (decimal fetch_config.step_minutes ∷ "m" ∷ []) in
      let labels = to_label_selector fetch_config in
      try_queries (λ query. query_range query step)
        (config.replica_query labels ∷ config.hpa_replica_query labels ∷ []) sample
