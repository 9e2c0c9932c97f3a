-- ===== src/Tests/ApiHandler.antt =====
-- The handler on a request with defaults, which asks for the specification.
use smart_hpa.Prelude.{ℕ, ◌≡◌, refl, ◌⊎◌, String, none, some, Error, true}
use smart_hpa.Prelude.{List, [], ◌∷◌, Option, Result, ok, value_error, type_error, if◌then◌else◌}
use smart_hpa.Prelude.Text.{str_eq}
use smart_hpa.V2.ApiHandler.{main}
use smart_hpa.V2.ApiHandler.Main.{IsHandled, IsRefused, main-IsHandled}
use smart_hpa.Prelude.Int.{pos}
use smart_hpa.Json.{Json, num, bool, get}
use smart_hpa.V2.Config.{PrometheusConfig, FetchConfig}
use smart_hpa.V2.Data.{ReplicaMetrics}
use smart_hpa.V2.Preprocessor.{preprocess}
use smart_hpa.V2.Model.{infer}
use smart_hpa.V2.Postprocessor.{process}
use smart_hpa.V2.ApiHandler.{Request, Exit, Loaded, decoded, no_object, not_json, generate_triggers}
use smart_hpa.V2.Pipeline.{Pipeline}
use smart_hpa.V2.Fetcher.Sample.{fetched_at}
use smart_hpa.Clock.{monday_morning}
use smart_hpa.Tests.Sample.{hundredths, host, client, metrics}

abbrev request : Request
request = record {
  prometheus_url = none;
  namespace = none;
  deployment = some "cart";
  custom_labels = none;
  timezone = none;
  days_to_analyze = none;
  step_minutes = none;
  output_format = some "smarthpa";
  smart_hpa_name = none;
  hpa_name = none;
}

-- Prometheus answers with the sample of the client.
abbrev fetch : PrometheusConfig → FetchConfig → Option (Result (ReplicaMetrics ℕ))
fetch = fetched_at client host monday_morning 0

-- Prometheus has been asked before.
abbrev fetched : PrometheusConfig → FetchConfig → Option (Result (ReplicaMetrics ℕ))
fetched config fetch_config = some (ok metrics)

abbrev as_json : ℕ → Json
as_json a = num (pos a)

abbrev error_text : Error → String
error_text e = "failed"

abbrev success_of : Option Json → Option Json
success_of none = none
success_of (some j) = get "success" j

succeeds : success_of (generate_triggers fetched as_json error_text request) ≡ some (bool true)
unfolding generate_triggers preprocess infer process
succeeds = refl

abbrev loads : String → Loaded
loads config =
    if str_eq config "{}"
    then decoded request
    else if str_eq config "[]"
    then no_object type_error
    else not_json value_error

main-IsHandled_example :
    ((config : String) (rest : List String)
      → IsHandled fetch as_json error_text
          (loads config)
          (main fetch as_json error_text loads ("api_handler" ∷ config ∷ rest)))
    × ((argv : List String)
        → ((argv ≡ []) ⊎ (argv ≡ "api_handler" ∷ []))
        → (exit : Exit) × (main fetch as_json error_text loads argv ≡ some (ok exit))
          × IsRefused fetch as_json error_text 1 exit)
main-IsHandled_example = main-IsHandled fetch as_json error_text loads "api_handler"
