-- ===== src/Tests/Cli.antt =====
-- The scripts on a request for the data of one day, with the tools of Tests.Detect and the server of
-- Tests.Prometheus.
use smart_hpa.Prelude.{
  ℕ, ◌≡◌, refl, String, [], ◌∷◌, none, some, ok, Error, value_error, if◌then◌else◌,
}
use smart_hpa.Prelude.Int.{pos}
use smart_hpa.Prelude.Text.{str_eq}
use smart_hpa.Json.{Json, num}
use smart_hpa.Clock.{monday_morning}
use smart_hpa.V1.Prometheus.Sample.{Metric}
use smart_hpa.V1.Cli.{failure, main, analyze_request, generate_request}
use smart_hpa.V1.Cli.Outcomes.{EndsOn, main_lem}
use smart_hpa.V2.ApiHandler.{Request, Loaded, decoded, not_json}
use smart_hpa.Tests.Sample.{hundredths, host}
use smart_hpa.Tests.Prometheus.{api}
use smart_hpa.Tests.Detect.{tools}

abbrev request : Request
request = record {
  prometheus_url = none;
  namespace = some "shop";
  deployment = none;
  custom_labels = none;
  timezone = none;
  days_to_analyze = some 1;
  step_minutes = none;
  output_format = none;
  smart_hpa_name = none;
  hpa_name = none;
}

abbrev error_text : Error → String
error_text e = "error"

-- One text is a config.
abbrev loads : String → Loaded
loads config = if str_eq config "{}" then decoded request else not_json value_error

abbrev write_float : ℕ → Json
write_float x = num (pos x)

abbrev now : Metric → ℕ
now kind = monday_morning

without_config_runs :
    main error_text loads
      (analyze_request api host tools write_float 0 now 0)
      ("analyze_patterns" ∷ [])
    ≡ ok (failure "No configuration provided")
unfolding main
without_config_runs = refl

main_lem_example :
    EndsOn loads (main error_text loads (analyze_request api host tools write_float 0 now 0))
    × EndsOn loads
        (main error_text loads (generate_request api host tools write_float 0 now 0 none))
main_lem_example = main_lem api host tools write_float 0 error_text loads now 0 none
