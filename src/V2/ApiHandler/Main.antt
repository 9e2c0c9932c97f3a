-- ===== src/V2/ApiHandler/Main.antt =====
-- `main` of ml/v2/api_handler.py: what is printed, and the exit code.
use smart_hpa.Prelude.{
  ℕ, ◌≡◌, refl, ◌⊎◌, inl, inr, false, String, List, [], ◌∷◌, Option, some, Result, ok, raise, Error,
}
use smart_hpa.Float.{Float}
use smart_hpa.Json.{Json, bool, str, get}
use smart_hpa.V2.Config.{PrometheusConfig, FetchConfig}
use smart_hpa.V2.Data.{ReplicaMetrics}
use smart_hpa.V2.Pipeline.{Pipeline}
use smart_hpa.V2.ApiHandler.{
  request_pipeline, Exit, exit_of, refusal, Loaded, decoded, no_object, not_json, unreadable,
  handled, generate_triggers, main,
}
use smart_hpa.V2.ApiHandler.Answer.{IsResponse, generate_triggers_lem}

module _ {F : Type 0} ⦃f : Float F⦄
    (fetch : PrometheusConfig → FetchConfig → Option (Result (ReplicaMetrics F)))
    (average : F → Json) (error_text : Error → String) where
  -- A failure with a text, and an exit code.
  abbrev pub IsRefused : ℕ → Exit → Type 0
  IsRefused code exit =
      (exit.exit_code ≡ code)
      × (get "success" exit.response ≡ some (bool false))
      × ((text : String) × (get "error" exit.response ≡ some (str text)))

  -- How `main` ends on an argument, as `json.loads` takes it.
  abbrev pub IsHandled : Loaded → Option (Result Exit) → Type 0
  IsHandled (decoded request) r =
      (response : Option Json) × (r ≡ exit_of response)
      × (let s : Pipeline F = request_pipeline request in
          IsResponse average error_text request (fetch s.prom_config s.fetch_config) response)
  IsHandled (no_object e) r = (exit : Exit) × (r ≡ some (ok exit)) × IsRefused 0 exit
  IsHandled (not_json e) r = (exit : Exit) × (r ≡ some (ok exit)) × IsRefused 1 exit
  IsHandled (unreadable e) r = r ≡ some (raise e)

  handled_lem :
      (l : Loaded) → IsHandled l (handled error_text (generate_triggers fetch average error_text) l)
  handled_lem (decoded request) = (_, refl, generate_triggers_lem average error_text fetch request)
  handled_lem (no_object e) = (_, refl, (refl, refl, (error_text e, refl)))
  handled_lem (not_json e) = (_, refl, (refl, refl, (_, refl)))
  handled_lem (unreadable e) = refl

  -- On every argument but an object with values of other types than a request has: a request is
  -- answered if the fetcher ends, with success or with a failure, and the exit code is 0, and not
  -- answered if the fetcher does not end; JSON that is no object is answered with a failure and the
  -- exit code 0; a text that is not JSON, or no argument, with an error and the exit code 1; and an
  -- exception of the decoder that is not a `JSONDecodeError` leaves `main`, without an answer.
  pub main-IsHandled :
      (loads : String → Loaded) (script : String)
      → ((config : String) (rest : List String)
          → IsHandled (loads config) (main fetch average error_text loads (script ∷ config ∷ rest)))
        × ((argv : List String)
            → ((argv ≡ []) ⊎ (argv ≡ script ∷ []))
            → (exit : Exit) × (main fetch average error_text loads argv ≡ some (ok exit))
              × IsRefused 1 exit)
  unfolding main
  main-IsHandled loads script = (
    (λ config rest. handled_lem (loads config)),
    λ argv h. elim h [
      | inl e ↦ rw e (refusal "No config provided", refl, (refl, refl, (_, refl)))
      | inr e ↦ rw e (refusal "No config provided", refl, (refl, refl, (_, refl)))
    ],
  )
