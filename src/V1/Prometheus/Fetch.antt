-- ===== src/V1/Prometheus/Fetch.antt =====
-- The fetchers of ml/prometheus_client.py: where they return, and the kinds of their rows.
use mathlib.Core.List.{zip_with, flat_map}
use smart_hpa.Prelude.{
  ℕ, ◌+◌, ◌≤◌, ◌<◌, ◌-◌, ◌≡◌, refl, ◌∙◌, false, String, List, [], ◌∷◌, length, none, some, Result,
  ok, raise, All, Each-All_right, Returns, Result-cases, Bool-cases, ◌⊎◌, inl, inr, ◌==◌, ltb,
  arith, request_error,
}
use smart_hpa.Prelude.Int.{ℤ, pos, ◌≤ℤ◌}
use smart_hpa.Prelude.Text.{str_eq}
use smart_hpa.Float.{Float}
use smart_hpa.Host.{Host}
use smart_hpa.Clock.{days, sub_delta}
use smart_hpa.V1.Config.{MetricLabels, labels_to_selector}
use smart_hpa.V1.Prometheus.{
  time, number, string, Columns, Frame, Answer, Api, get_cell, put_column, query_range, answered,
  first_frame,
}
use smart_hpa.V1.Prometheus.Sample.{
  Metric, metric_type, step_minutes_of, sample_value, sample_row, deviation, generate_sample_data,
  queries_of, fetch_metrics,
}
use smart_hpa.V1.Prometheus.Columns.{
  IsPlain, points_of, get-set, get-set_other, parse_range_result-IsRowOf,
}

module _ {F : Type 0} where
  -- A row with a time and a number.
  abbrev pub IsPoint : Columns F → Type 0
  IsPoint row =
      ((t : ℕ) × (get_cell "timestamp" row ≡ some (time t)))
      × ((v : F) × (get_cell "value" row ≡ some (number v)))

  -- A point of the given kind.
  abbrev pub IsSampleOf : Metric → Columns F → Type 0
  IsSampleOf kind row =
      IsPoint row × (get_cell "metric_type" row ≡ some (string (metric_type kind)))

  put_column-IsSampleOf :
      (kind : Metric) (frame : Frame F)
      → All IsPoint frame
      → All (IsSampleOf kind) (put_column "metric_type" (string (metric_type kind)) frame)
  unfolding put_column
  put_column-IsSampleOf kind [] h = tt
  put_column-IsSampleOf kind (row ∷ frame) h =
      let ((t, time_of), (v, value_of)) = h.0 in
      let kept = λ (key : String) (apart : str_eq "metric_type" key ≡ false).
        get-set_other key "metric_type" (string (metric_type kind)) row apart in
      (
        (
          ((t, kept "timestamp" refl ∙ time_of), (v, kept "value" refl ∙ value_of)),
          get-set "metric_type" (string (metric_type kind)) row,
        ),
        put_column-IsSampleOf kind frame h.1,
      )

  first_frame-IsSampleOf :
      (kind : Metric) (run : String → Result (Frame F))
      → ((q : String) (frame : Frame F) → run q ≡ ok frame → All IsPoint frame)
      → (queries : List String)
      → (first_frame (metric_type kind) run queries ≡ none)
        ⊎ ((frame : Frame F) × (first_frame (metric_type kind) run queries ≡ some frame)
            × All (IsSampleOf kind) frame)
  unfolding first_frame
  first_frame-IsSampleOf kind run h [] = inl refl
  first_frame-IsSampleOf kind run h (q ∷ qs) =
      let later = first_frame-IsSampleOf kind run h qs in
      elim (Result-cases (run q)) [
        | inr failed ↦ rw failed.1 later
        | inl answer ↦ elim (Bool-cases (length answer.0 == 0)) [
          | inl empty ↦ rw (answer.1, empty) later
          | inr full ↦
              rw (answer.1, full)
                (inr (_, refl, put_column-IsSampleOf kind answer.0 (h q answer.0 answer.1)))
        ]
      ]

-- No series that the server answers with has a label with the name of one of the parser's columns.
abbrev pub AnswersPlainly : {F : Type 0} → Api F → Type 0
AnswersPlainly {F} api =
    (query : String) (start end : ℕ) (step : String) (answer : Answer F)
    → api.get query start end step ≡ ok answer
    → All IsPlain answer.result

-- Full days of the times that pandas has: 1677-09-22 and 2262-04-11.
abbrev pub first_pandas_day : ℕ
first_pandas_day = 52_912_310_400_000_000

abbrev pub last_pandas_day : ℕ
last_pandas_day = 71_358_883_200_000_000

-- What is documented: the random generator can be seeded with 32 bits and gives as many numbers as it is asked for;
-- and between times of pandas there are times for every step of a minute or more.
pub record IsSampler {F : Type 0} {S : Type 0} ⦃f : Float F⦄ (api : Api F) (host : Host F S)
    : Type 0 where
  pub date_range_law :
      (start end : ℕ) (m : ℤ)
      → first_pandas_day ≤ start
      → start ≤ end
      → end ≤ last_pandas_day
      → pos 1 ≤ℤ m
      → Returns (api.date_range start end m)
  pub seed_law : (n : ℕ) (s : S) → n < 4_294_967_296 → Returns (host.seed (some n) s)
  pub normals_law :
      (kind : Metric) (n : ℕ) (s : S)
      → Returns (host.normals (f.literal 0 0) (deviation api host kind) n s)

module _ {F : Type 0} {S : Type 0} ⦃f : Float F⦄ (api : Api F) (host : Host F S)
    (sampler : IsSampler api host) (plain : AnswersPlainly api) where
  answered-IsPoint :
      (answer : Result (Answer F)) (frame : Frame F)
      → ((a : Answer F) → answer ≡ ok a → All IsPlain a.result)
      → answered api answer ≡ ok frame
      → All IsPoint frame
  answered-IsPoint (raise request_error) frame labels e = cc
  answered-IsPoint (raise other) frame labels e = cc
  answered-IsPoint (ok a) frame labels e = elim (Bool-cases (str_eq a.status "success")) [
    | inl success ↦
        Each-All_right (λ p row r. ((r.0.0, r.0.2), (r.1.0, r.1.2)))
          (flat_map (points_of api) a.result) frame
          (parse_range_result-IsRowOf api a.result frame (labels a refl) (rw success at e))
    | inr failure ↦ let raised = rw failure at e in cc
  ]

  query_range-IsPoint :
      (query : String) (start end : ℕ) (step : String) (frame : Frame F)
      → query_range api query start end step ≡ ok frame
      → All IsPoint frame
  unfolding query_range
  query_range-IsPoint query start end step frame e =
      answered-IsPoint (api.get query start end step) frame (plain query start end step) e

  sample_rows-IsSampleOf :
      (kind : Metric) (times : List ℕ) (noise : List F)
      → All (IsSampleOf kind) (
          zip_with (λ t n. sample_row api host kind t (sample_value api host kind t n)) times noise)
  unfolding zip_with get_cell
  sample_rows-IsSampleOf kind [] noise = tt
  sample_rows-IsSampleOf kind (t ∷ times) [] = tt
  sample_rows-IsSampleOf kind (t ∷ times) (n ∷ noise) =
      ((((t, refl), (_, refl)), refl), sample_rows-IsSampleOf kind times noise)

  generate_sample_data-IsSampleOf :
      (kind : Metric) (start end : ℕ) (step : String) (s : S) (m : ℤ)
      → first_pandas_day ≤ start
      → start ≤ end
      → end ≤ last_pandas_day
      → step_minutes_of api step ≡ ok m
      → pos 1 ≤ℤ m
      → (r : Frame F × S) × (generate_sample_data api host start end step kind s ≡ ok r)
        × All (IsSampleOf kind) r.0
  unfolding generate_sample_data
  generate_sample_data-IsSampleOf kind start end step s m low order high parsed p =
      let (times, ranged) = sampler.date_range_law start end m low order high p in
      let (seeded, e) = sampler.seed_law 42 s (omega arith) in
      let (noise, drawn) = sampler.normals_law kind (length times) seeded in
      (
        (
          zip_with (λ t n. sample_row api host kind t (sample_value api host kind t n)) times
              noise.0,
          noise.1,
        ),
        rw (parsed, ranged, e, drawn) refl,
        sample_rows-IsSampleOf kind times noise.0,
      )

  -- Each fetcher returns rows of its kind.
  pub fetch_metrics-IsSampleOf :
      (kind : Metric) (labels : MetricLabels) (days_back : ℕ) (step : String) (now : ℕ) (s : S)
      (m : ℤ)
      → first_pandas_day + days days_back ≤ now
      → now ≤ last_pandas_day
      → step_minutes_of api step ≡ ok m
      → pos 1 ≤ℤ m
      → (r : Frame F × S) × (fetch_metrics api host kind labels days_back step now s ≡ ok r)
        × All (IsSampleOf kind) r.0
  unfolding fetch_metrics sub_delta
  fetch_metrics-IsSampleOf kind labels days_back step now s m d u parsed p =
      let early : ltb now (days days_back) ≡ false = ground arith in
      let start = now - days days_back in
      let run : String → Result (Frame F) = λ query. query_range api query start now step in
      elim (first_frame-IsSampleOf kind run
        (λ q frame e. query_range-IsPoint q start now step frame e)
        (queries_of api host kind (labels_to_selector labels))) [
          | inl nothing ↦
              let (r, made, rows) =
                generate_sample_data-IsSampleOf kind start now step s m (omega arith) (omega arith)
                  u parsed p in
              (r, rw early (rw nothing made), rows)
          | inr found ↦ let (frame, e, rows) = found in ((frame, s), rw early (rw e refl), rows)
        ]
