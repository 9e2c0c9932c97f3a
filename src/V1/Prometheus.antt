-- ===== src/V1/Prometheus.antt =====
-- ml/prometheus_client.py: `PrometheusMetricsClient`. A data frame of pandas is a list of rows, and a row
-- its cells by the names of their columns.
pub mod Sample
pub mod Columns
pub mod Fetch
pub mod Times
use mathlib.Core.List.{flat_map, foldl, zip_with}
use Prim.Native.String.{compare}
use text.Mathlib.Text.{is_lt, is_eq}
use smart_hpa.Prelude.{
  ℕ, Bool, true, false, not, ◌&&◌, ◌||◌, String, List, [], ◌∷◌, map, length, filter, Option, none,
  some, Result, ok, raise, traverse, ◌>>=◌, ltb, ◌==◌, if◌then◌else◌, value_error, type_error,
  request_error, connection_error,
}
use smart_hpa.Prelude.Int.{ℤ}
use smart_hpa.Prelude.Text.{concat, join, str_eq}
use smart_hpa.Prelude.Sort.{sorted}

pub data Cell (F : Type 0) : Type 0 where
  time : ℕ → Cell F
  number : F → Cell F
  string : String → Cell F

abbrev pub Columns : Type 0 → Type 0
Columns F = List (String × Cell F)

abbrev pub Frame : Type 0 → Type 0
Frame F = List (Columns F)

-- `data["data"]["result"]`, decoded: the labels of a series and its points.
pub record Series (F : Type 0) : Type 0 where
  pub metric : List (String × String)
  pub values : List (F × String)

pub record Answer (F : Type 0) : Type 0 where
  pub status : String
  pub result : List (Series F)

-- What is not part of the repository.
pub record Api (F : Type 0) : Type 0 where
  -- `session.get(...)`, `raise_for_status()` and `json()` for a query, a start, an end and a step;
  -- `request_error` is a `RequestException`.
  pub get : String → ℕ → ℕ → String → Result (Answer F)
  -- `datetime.fromtimestamp(ts)`
  pub from_timestamp : F → Result ℕ
  -- `float(text)` and `int(text)`
  pub parse : String → Result F
  pub parse_int : String → Result ℤ
  pub nan : F
  -- `pd.date_range(start=start, end=end, freq=f"{minutes}min")`
  pub date_range : ℕ → ℕ → ℤ → Result (List ℕ)

module _ {F : Type 0} where
  -- `df[key] = cell` in one row.
  unfoldable pub set_cell : String → Cell F → Columns F → Columns F
  set_cell key cell [] = (key, cell) ∷ []
  set_cell key cell ((k, old) ∷ row) =
      let rest = set_cell key cell row in if str_eq k key then (k, cell) ∷ row else (k, old) ∷ rest

  unfoldable pub get_cell : String → Columns F → Option (Cell F)
  get_cell key [] = none
  get_cell key ((k, cell) ∷ row) =
      let rest = get_cell key row in if str_eq k key then some cell else rest

  unfoldable pub put_column : String → Cell F → Frame F → Frame F
  unfolding set_cell
  put_column key cell frame = map (set_cell key cell) frame

  -- `df[k] = v` for each label.
  unfoldable pub put_labels : List (String × String) → Columns F → Columns F
  unfolding set_cell
  put_labels [] row = row
  put_labels ((k, v) ∷ labels) row = put_labels labels (set_cell k (string v) row)

-- Whether the item `x` stands behind `y` in `sorted(labels.items())`.
abbrev pub item_after : String × String → String × String → Bool
item_after x y = is_lt (compare y.0 x.0) || (is_eq (compare y.0 x.0) && is_lt (compare y.1 x.1))

unfoldable pub series_id : List (String × String) → String
unfolding sorted join concat
series_id labels = join "_" (map (λ e. concat (e.0 ∷ "=" ∷ e.1 ∷ [])) (sorted item_after labels))

module _ {F : Type 0} (api : Api F) where
  open api use {from_timestamp, parse, nan}

  -- `float(v[1]) if v[1] != "NaN" else np.nan`
  unfoldable pub data_value : String → Result F
  data_value value = if str_eq value "NaN" then ok nan else parse value

  -- The data frame of one series.
  unfoldable pub series_frame : Series F → Result (Frame F)
  unfolding data_value series_id put_labels
  series_frame series = do
    timestamps ← traverse (λ point. from_timestamp point.0) series.values
    data_values ← traverse (λ point. data_value point.1) series.values
    let id = series_id series.metric
    ok (
        zip_with
          (λ t v.
            put_labels series.metric
              (("timestamp", time t) ∷ ("value", number v) ∷ ("series_id", string id) ∷ []))
          timestamps data_values)

  -- `_parse_range_result`: series without values are passed over.
  unfoldable pub parse_range_result : List (Series F) → Result (Frame F)
  unfolding series_frame
  parse_range_result result = do
    frames ← traverse series_frame (filter (λ series. not (length series.values == 0)) result)
    ok (flat_map (λ frame. frame) frames)

  -- A failure of the request becomes a `ConnectionError`.
  abbrev pub answered : Result (Answer F) → Result (Frame F)
  answered (raise request_error) = raise connection_error
  answered (raise e) = raise e
  answered (ok answer) =
      let parsed = parse_range_result answer.result in
      if str_eq answer.status "success" then parsed else raise value_error

  unfoldable pub query_range : String → ℕ → ℕ → String → Result (Frame F)
  unfolding parse_range_result
  query_range query start end step = answered (api.get query start end step)

-- One turn of the loop over the queries: an exception or an empty frame goes on to the next one.
abbrev pub frame_or : {F : Type 0} → String → Result (Frame F) → Option (Frame F) → Option (Frame F)
frame_or kind (ok frame) later =
    if length frame == 0 then later else some (put_column "metric_type" (string kind) frame)
frame_or kind (raise e) later = later

-- The frame of the first query that returns rows, with its kind in a column.
unfoldable pub first_frame :
    {F : Type 0} → String → (String → Result (Frame F)) → List String → Option (Frame F)
unfolding put_column
first_frame kind run [] = none
first_frame kind run (query ∷ queries) =
    let later = first_frame kind run queries in frame_or kind (run query) later
