-- ===== src/Tests/Fetcher.antt =====
-- The fetcher on a client that answers, and the search on a query that fails.
use smart_hpa.Prelude.{
  ℕ, suc, some, ◌+◌, ◌-◌, ◌≡◌, ◌<◌, refl, String, [], ◌∷◌, Result, ok, raise, key_error,
  if◌then◌else◌, arith,
}
use smart_hpa.Prelude.Text.{str_eq}
use mathlib.Core.List.{flat_map, zip_with}
use smart_hpa.Prelude.Sort.{sorted}
use smart_hpa.V2.Config.{prometheus_config}
use smart_hpa.V2.Data.{ReplicaMetrics}
use smart_hpa.V2.Fetcher.{try_queries, fetch, build_metrics}
use smart_hpa.V2.Fetcher.Select.{IsFirstUsable, try_queries-IsFirstUsable}
use smart_hpa.V2.Fetcher.Aligned.{IsAligned}
use smart_hpa.V2.Preprocessor.{zeros}
use smart_hpa.Clock.{days, minutes, monday_morning}
use smart_hpa.V2.Fetcher.Aligned.{length-zeros}
use smart_hpa.V2.Fetcher.Sample.{generate_sample_data, fetch_at}
use smart_hpa.V2.Fetcher.Fallback.{IsGenerator, fetch_at-IsAligned}
use smart_hpa.Tests.Sample.{hundredths, host, client, fetch_config, metrics}

abbrev run_first : String → Result (ReplicaMetrics ℕ)
run_first query = if str_eq query "a" then raise key_error else ok metrics

try_queries-IsFirstUsable_example :
    IsFirstUsable run_first metrics
      ("a" ∷ "b" ∷ [])
      (try_queries run_first ("a" ∷ "b" ∷ []) metrics)
try_queries-IsFirstUsable_example = try_queries-IsFirstUsable run_first metrics ("a" ∷ "b" ∷ [])

fetch_runs :
    (fetch client (prometheus_config "http://localhost:9090") fetch_config metrics).values
    ≡ 300 ∷ 500 ∷ []
unfolding fetch prometheus_config flat_map sorted
fetch_runs = refl

pub metrics-IsAligned : IsAligned metrics
metrics-IsAligned = record {
  values_length = refl;
  hours_length = refl;
  days_length = refl;
  dates_length = refl;
  hours_bound = omega arith;
  days_bound = omega arith;
}

hour_below : (t : ℕ) → client.hour t < 24
hour_below t = omega arith

weekday_below : (t : ℕ) → client.weekday t < 7
weekday_below t = omega arith

generator : IsGenerator host
generator = record {
  seed_law = λ n s small. (0, refl);
  uniform_law = λ low high s l small. ((_, suc s), refl);
  normals_law = λ n s. ((zeros 0 n, s + n), refl, length-zeros 0 n);
}

fetch_at-IsAligned_example :
    (r sample : ReplicaMetrics ℕ × ℕ) × (fetch_at client host
        (prometheus_config "http://localhost:9090")
        fetch_config
        monday_morning
        0
      ≡ some (ok r))
    × (generate_sample_data client host (monday_morning - days 1) monday_morning 5 0
        ≡ some (ok sample))
    × (r.0 ≡ fetch client (prometheus_config "http://localhost:9090") fetch_config sample.0)
    × IsAligned r.0
fetch_at-IsAligned_example =
    fetch_at-IsAligned client host generator hour_below weekday_below
      (prometheus_config "http://localhost:9090") fetch_config monday_morning 0 (omega arith)
      (omega arith) (omega arith) (λ t a b. (ground arith, ground arith))

-- Two times that are not at peak hours in the calendar of the test's client.
generate_sample_data_runs :
    elim (generate_sample_data client host monday_morning (monday_morning + minutes 10) 5 0) [
      | some (ok made) ↦ made.0.values
      | other ↦ []
    ]
    ≡ 200 ∷ 200 ∷ []
unfolding generate_sample_data build_metrics zip_with
generate_sample_data_runs = refl
