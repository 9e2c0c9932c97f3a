-- ===== src/Tests/Prometheus.antt =====
-- The client of ml/prometheus_client.py on an answer with two series, of which one has no points.
use mathlib.Core.List.{flat_map, zip_with}
use smart_hpa.Prelude.{ℕ, ◌+◌, ◌≡◌, refl, List, [], ◌∷◌, ok, All, Each}
use smart_hpa.Prelude.Int.{pos}
use smart_hpa.Clock.{monday_morning, minutes}
use smart_hpa.V1.Config.{MetricLabels}
use smart_hpa.V1.Prometheus.{time, number, string, Frame, Series, Answer, Api, parse_range_result}
use smart_hpa.V1.Prometheus.Sample.{step_minutes_of, sample_row, replicas, generate_sample_data}
use smart_hpa.V1.Prometheus.Columns.{IsPlain, IsRowOf, points_of, parse_range_result-IsRowOf}
use smart_hpa.Tests.Sample.{hundredths, client, host}

abbrev series : List (Series ℕ)
series =
    record { metric = ("pod", "a") ∷ []; values = [] }
    ∷ record {
      metric = ("pod", "b") ∷ ("namespace", "shop") ∷ [];
      values = (100, "3") ∷ (200, "NaN") ∷ [];
    }
    ∷ []

abbrev answer : Answer ℕ
answer = record { status = "success"; result = series }

abbrev pub api : Api ℕ
api = record {
  get = λ query start end step. ok answer;
  from_timestamp = λ ts. ok (monday_morning + ts);
  parse = client.parse;
  parse_int = λ text. ok (pos 5);
  nan = client.nan;
  date_range = λ start end m. ok (start ∷ end ∷ []);
}

abbrev frame : Frame ℕ
frame =
    (("timestamp", time (monday_morning + 100))
      ∷ ("value", number 300)
      ∷ ("series_id", string "namespace=shop_pod=b")
      ∷ ("pod", string "b")
      ∷ ("namespace", string "shop")
      ∷ [])
    ∷ (("timestamp", time (monday_morning + 200))
        ∷ ("value", number 1_000_001)
        ∷ ("series_id", string "namespace=shop_pod=b")
        ∷ ("pod", string "b")
        ∷ ("namespace", string "shop")
        ∷ [])
    ∷ []

parse_range_result_runs : parse_range_result api series ≡ ok frame
unfolding parse_range_result flat_map zip_with
parse_range_result_runs = refl

series-IsPlain : All IsPlain series
series-IsPlain = (
  ((refl, tt), (refl, tt), (refl, tt)),
  (((refl, (refl, tt)), (refl, (refl, tt)), (refl, (refl, tt))), tt),
)

parse_range_result-IsRowOf_example : Each (IsRowOf api) (flat_map (points_of api) series) frame
parse_range_result-IsRowOf_example =
    parse_range_result-IsRowOf api series frame series-IsPlain parse_range_result_runs

abbrev labels : MetricLabels
labels = record {
  namespace = "shop";
  deployment = "";
  pod = "";
  container = "";
  custom_labels = [];
}

pub minutes_parsed : step_minutes_of api "5m" ≡ ok (pos 5)
unfolding step_minutes_of
minutes_parsed = refl

-- Two times of sample data, of which the first is at business hours on a Monday.
sample_data_runs :
    generate_sample_data api host monday_morning (monday_morning + minutes 720) "12h" replicas 0
    ≡ ok (
      sample_row api host replicas monday_morning 900
          ∷ sample_row api host replicas (monday_morning + minutes 720) 400
          ∷ [],
      2,
    )
unfolding generate_sample_data zip_with
sample_data_runs = refl
