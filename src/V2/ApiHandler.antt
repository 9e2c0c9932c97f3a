-- ===== src/V2/ApiHandler.antt =====
-- ml/v2/api_handler.py: `generate_triggers` answers a request, exceptions included.
pub mod Answer
pub mod Main
use smart_hpa.Prelude.{
  ℕ, Bool, true, false, String, List, [], ◌∷◌, ◌++◌, Option, none, some, Result, ok, raise, Error,
  ◌>>=◌, if◌then◌else◌,
}
use smart_hpa.Prelude.Text.{concat, str_eq}
use smart_hpa.Float.{Float}
use smart_hpa.Json.{Json, bool, str, object}
use smart_hpa.V2.Config.{FetchConfig, PrometheusConfig, TriggerConfig}
use smart_hpa.V2.Data.{ReplicaMetrics}
use smart_hpa.V2.Pipeline.{Pipeline, new_pipeline, run, pipeline_to_dict, pipeline_spec, get_stats}

-- The keys of the request; `none` is a key that is not there.
pub record Request : Type 0 where
  pub prometheus_url : Option String
  pub namespace : Option String
  pub deployment : Option String
  pub custom_labels : Option (List (String × String))
  pub timezone : Option String
  pub days_to_analyze : Option ℕ
  pub step_minutes : Option ℕ
  pub output_format : Option String
  pub smart_hpa_name : Option String
  pub hpa_name : Option String

-- `config.get(key, default)`
abbrev pub get_key {ℓ} : {A : Type ℓ} → Option A → A → A
get_key none default = default
get_key (some a) default = a

-- `config.get("outputFormat") == "smarthpa"`
abbrev pub wants_spec : Request → Bool
wants_spec request = str_eq (get_key request.output_format "") "smarthpa"

unfoldable pub request_fetch_config : Request → FetchConfig
request_fetch_config request = record {
  days = get_key request.days_to_analyze 30;
  step_minutes = get_key request.step_minutes 5;
  namespace = get_key request.namespace "";
  deployment = get_key request.deployment "";
  custom_labels = get_key request.custom_labels [];
}

-- The `except`; `error_text` is `str(e)`.
abbrev pub catch : (Error → String) → Result Json → Json
catch error_text (ok response) = response
catch error_text (raise e) = object (("success", bool false) ∷ ("error", str (error_text e)) ∷ [])

module _ {F : Type 0} ⦃f : Float F⦄ where
  unfoldable pub request_pipeline : Request → Pipeline F
  unfolding new_pipeline request_fetch_config
  request_pipeline request =
      new_pipeline (get_key request.prometheus_url "http://localhost:9090")
        (request_fetch_config request) (get_key request.timezone "UTC")

  -- The answer after the run, or the exception that the handler catches; `average` writes a float as JSON.
  unfoldable pub answer : (F → Json) → Request → Result (ReplicaMetrics F) → Result Json
  unfolding request_pipeline run get_stats pipeline_to_dict pipeline_spec
  answer average request fetched = do
    let (outcome, done) = run (request_pipeline request) fetched
    triggers ← outcome
    stats ← get_stats average done
    let spec =
        pipeline_spec done (get_key request.smart_hpa_name "my-smarthpa")
          (some (get_key request.namespace "default")) (some (get_key request.hpa_name "my-hpa"))
    ok (
        object (
          ("success", bool true)
          ∷ ("triggers", pipeline_to_dict done)
          ∷ ("stats", stats)
          ∷ (if wants_spec request then ("spec", spec) ∷ [] else [])))

  abbrev pub responded :
      (F → Json) → (Error → String) → Request → Option (Result (ReplicaMetrics F)) → Option Json
  responded average error_text request none = none
  responded average error_text request (some fetched) =
      some (catch error_text (answer average request fetched))

  -- `generate_triggers`, `none` if it does not end. `fetch` is the fetcher of the new pipeline, as
  -- `fetched_at` of V2.Fetcher.Sample: it returns, raises or does not end.
  unfoldable pub generate_triggers :
      (PrometheusConfig → FetchConfig → Option (Result (ReplicaMetrics F)))
      → (F → Json)
      → (Error → String)
      → Request
      → Option Json
  unfolding answer request_pipeline
  generate_triggers fetch average error_text request =
      let s : Pipeline F = request_pipeline request in
      responded average error_text request (fetch s.prom_config s.fetch_config)

-- How `json.loads` takes a text: an object, whose keys of a request have values of their types where they
-- are present; JSON that is no object, with the exception of the first `get` from it; a
-- `JSONDecodeError`; or another exception, such as for a number of too many digits or too deep a nesting.
-- An object with values of other types is not modelled.
pub data Loaded : Type 0 where
  decoded : Request → Loaded
  no_object not_json unreadable : Error → Loaded

-- What `main` prints last, and its exit code.
pub record Exit : Type 0 where
  pub response : Json
  pub exit_code : ℕ

abbrev pub refusal : String → Exit
refusal error = record {
  response = object (("success", bool false) ∷ ("error", str error) ∷ []);
  exit_code = 1;
}

abbrev pub exit_of : Option Json → Option (Result Exit)
exit_of none = none
exit_of (some response) = some (ok (record { response = response; exit_code = 0 }))

abbrev pub handled : (Error → String) → (Request → Option Json) → Loaded → Option (Result Exit)
handled error_text respond (decoded request) = exit_of (respond request)
handled error_text respond (no_object e) = exit_of (some (catch error_text (raise e)))
handled error_text respond (not_json e) =
    some (ok (refusal (concat ("Invalid JSON: " ∷ error_text e ∷ []))))
handled error_text respond (unreadable e) = some (raise e)

-- `main`: `argv` is `sys.argv`; `none` if it does not end, and an exception if one leaves it. What the
-- pipeline prints is captured.
unfoldable pub main :
    {F : Type 0} ⦃f : Float F⦄
    → (PrometheusConfig → FetchConfig → Option (Result (ReplicaMetrics F)))
    → (F → Json)
    → (Error → String)
    → (String → Loaded)
    → List String
    → Option (Result Exit)
unfolding generate_triggers concat
main fetch average error_text loads (script ∷ config ∷ rest) =
    handled error_text (generate_triggers fetch average error_text) (loads config)
main fetch average error_text loads _ = some (ok (refusal "No config provided"))
