-- ===== src/V1/Cli/Outcomes.antt =====
-- The outcomes of the two scripts: an answer with exit code 0, or an error with exit code 1.
use smart_hpa.Prelude.{
  ℕ, ◌≡◌, refl, ◌⊎◌, inl, inr, true, false, String, List, [], ◌∷◌, Option, some, Result, ok, raise,
  Error, Ensures, Ensures-then,
}
use smart_hpa.Float.{Float}
use smart_hpa.Host.{Host}
use smart_hpa.Json.{Json, bool, str, get}
use smart_hpa.V1.Prometheus.{Api}
use smart_hpa.V1.Prometheus.Sample.{Metric}
use smart_hpa.V1.Analyzer.Tables.{Tools}
use smart_hpa.V1.Generator.{Generator, generate}
use smart_hpa.V1.Config.{TriggerSuggestion}
use smart_hpa.V1.Cli.{
  analysis_object, triggers_object, triggers_answer, Outcome, failure, outcome_of, loaded, main,
  fetch_and_analyze, analysis_answer, analyze_request, generate_request,
}
use smart_hpa.V2.ApiHandler.{Request, Loaded, decoded, no_object, not_json, unreadable}

-- An error with its text.
abbrev pub IsFailure : Outcome → Type 0
IsFailure o =
    (get "success" o.response ≡ some (bool false))
    × ((text : String) × (get "error" o.response ≡ some (str text)))
    × (o.exit_code ≡ 1)

-- An answer, or an error.
abbrev pub IsOutcome : Outcome → Type 0
IsOutcome o = ((get "success" o.response ≡ some (bool true)) × (o.exit_code ≡ 0)) ⊎ IsFailure o

-- The answer says that it is one.
abbrev pub IsSuccess : Json → Type 0
IsSuccess answer = get "success" answer ≡ some (bool true)

outcome_of-IsOutcome :
    (error_text : Error → String) (r : Result Json)
    → Ensures IsSuccess r
    → IsOutcome (outcome_of error_text r)
outcome_of-IsOutcome error_text (ok answer) h = inl (h, refl)
outcome_of-IsOutcome error_text (raise e) h = inr (refl, (error_text e, refl), refl)

-- How a script ends on an argument, as `json.loads` takes it.
abbrev pub IsEndOf : Loaded → Result Outcome → Type 0
IsEndOf (decoded request) r = (o : Outcome) × (r ≡ ok o) × IsOutcome o
IsEndOf (no_object e) r = (o : Outcome) × (r ≡ ok o) × IsFailure o
IsEndOf (not_json e) r = (o : Outcome) × (r ≡ ok o) × IsFailure o
IsEndOf (unreadable e) r = r ≡ raise e

-- On every argument, and without one.
abbrev pub EndsOn : (String → Loaded) → (List String → Result Outcome) → Type 0
EndsOn loads run =
    ((script config : String) (rest : List String)
      → IsEndOf (loads config) (run (script ∷ config ∷ rest)))
    × ((script : String) → (o : Outcome) × (run (script ∷ []) ≡ ok o) × IsFailure o)

loaded-IsEndOf :
    (error_text : Error → String) (body : Request → Result Json) (l : Loaded)
    → ((request : Request) → Ensures IsSuccess (body request))
    → IsEndOf l (loaded error_text body l)
loaded-IsEndOf error_text body (decoded request) h =
    (_, refl, outcome_of-IsOutcome error_text (body request) (h request))
loaded-IsEndOf error_text body (no_object e) h = (_, refl, (refl, (error_text e, refl), refl))
loaded-IsEndOf error_text body (not_json e) h = (_, refl, (refl, (_, refl), refl))
loaded-IsEndOf error_text body (unreadable e) h = refl

main-EndsOn :
    (error_text : Error → String) (loads : String → Loaded) (body : Request → Result Json)
    → ((request : Request) → Ensures IsSuccess (body request))
    → EndsOn loads (main error_text loads body)
unfolding main
main-EndsOn error_text loads body h = (
  (λ script config rest. loaded-IsEndOf error_text body (loads config) h),
  λ script. (failure "No configuration provided", refl, (refl, (_, refl), refl)),
)

triggers_answer-IsSuccess :
    {F : Type 0} ⦃f : Float F⦄ (request : Request)
    (r : Result (List (TriggerSuggestion F)) × Generator F)
    → Ensures IsSuccess (triggers_answer request r)
unfolding triggers_answer
triggers_answer-IsSuccess request (ok triggers, done) = refl
triggers_answer-IsSuccess request (raise e, done) = tt

module _ {F : Type 0} {S : Type 0} ⦃f : Float F⦄ (api : Api F) (host : Host F S) (tools : Tools F)
    (write_float : F → Json) (minus_one : F) where
  analyze_request-IsSuccess :
      (now : Metric → ℕ) (random : S) (request : Request)
      → Ensures IsSuccess (analyze_request api host tools write_float minus_one now random request)
  unfolding analyze_request analysis_answer
  analyze_request-IsSuccess now random request =
      Ensures-then IsSuccess
        (fetch_and_analyze api host tools minus_one (analysis_object request) now random)
        (λ analyzed. ok (analysis_answer write_float analyzed.0 analyzed.1)) λ analyzed. refl

  generate_request-IsSuccess :
      (now : Metric → ℕ) (random : S) (container : Option String) (request : Request)
      → Ensures IsSuccess
          (generate_request api host tools write_float minus_one now random container request)
  unfolding generate_request
  generate_request-IsSuccess now random container request =
      let s = triggers_object container request in
      Ensures-then IsSuccess (fetch_and_analyze api host tools minus_one s now random)
        (λ analyzed. triggers_answer request (generate s.generator analyzed.1))
        λ analyzed. triggers_answer-IsSuccess request (generate s.generator analyzed.1)

  -- Whatever the libraries and the server return or raise, each script, on an argument that is
  -- decoded to a request of the expected keys and types, prints an answer of success and exits with 0, or
  -- prints an error with its text and exits with 1. On JSON that is no object, on a text that is not JSON,
  -- and without an argument, it prints an error and exits with 1. An exception of the decoder that is not a
  -- `JSONDecodeError` leaves the script, without an answer.
  pub main_lem :
      (error_text : Error → String) (loads : String → Loaded) (now : Metric → ℕ) (random : S)
      (container : Option String)
      → EndsOn loads
          (main error_text loads (analyze_request api host tools write_float minus_one now random))
        × EndsOn loads (
            main error_text loads
              (generate_request api host tools write_float minus_one now random container))
  main_lem error_text loads now random container = (
    main-EndsOn error_text loads (analyze_request api host tools write_float minus_one now random)
        (analyze_request-IsSuccess now random),
    main-EndsOn error_text loads
        (generate_request api host tools write_float minus_one now random container)
        (generate_request-IsSuccess now random container),
  )
