-- ===== src/V2/ApiHandler/Answer.antt =====
-- `generate_triggers`: its two kinds of responses.
use smart_hpa.Prelude.{
  Option, Result, ◌≡◌, refl, sym, ap, ◌∙◌, ◌⊎◌, inl, inr, true, false, String, List, map, All, none,
  some, ok, raise, Error, if◌then◌else◌, Bool-cases, Result-cases,
}
use smart_hpa.Float.{Float}
use smart_hpa.Json.{Json, bool, str, get, array}
use smart_hpa.V2.Config.{PrometheusConfig, FetchConfig, TriggerConfig, to_dict}
use smart_hpa.V2.Data.{ReplicaMetrics}
use smart_hpa.V2.Postprocessor.Replicas.{IsRunnable}
use smart_hpa.V2.Pipeline.{Pipeline, run, get_stats, pipeline_spec, pipeline_to_dict, new_pipeline}
use smart_hpa.V2.Pipeline.Stages.{run_inv, run-IsRunnable}
use smart_hpa.V2.ApiHandler.{
  Request, get_key, wants_spec, request_pipeline, answer, catch, responded, generate_triggers,
}

module _ {F : Type 0} ⦃f : Float F⦄ (fetched : Result (ReplicaMetrics F)) (average : F → Json)
    (error_text : Error → String) where
  -- The response of a run that came to its end: the triggers `ts` that it returned, its statistics, and
  -- the specification if and only if the request asks for it.
  pub record IsSuccess (request : Request) (response : Json) : Type 0 where
    pub ts : List (TriggerConfig F)
    pub done : Pipeline F
    pub stats : Json
    pub ran : run (request_pipeline request) fetched ≡ (ok ts, done)
    pub counted : get_stats average done ≡ ok stats
    pub success_of : get "success" response ≡ some (bool true)
    pub triggers_of : get "triggers" response ≡ some (array (map to_dict ts))
    pub runnable : All IsRunnable ts
    pub stats_of : get "stats" response ≡ some stats
    pub spec_of : get "spec" response ≡ (
        if wants_spec request
        then some (
            pipeline_spec done
              (get_key request.smart_hpa_name "my-smarthpa")
              (some (get_key request.namespace "default"))
              (some (get_key request.hpa_name "my-hpa")))
        else none)
    pub no_error : get "error" response ≡ none

  -- The response after an exception.
  pub record IsFailure (response : Json) : Type 0 where
    pub cause : Error
    pub success_of : get "success" response ≡ some (bool false)
    pub error_of : get "error" response ≡ some (str (error_text cause))
    pub no_triggers : get "triggers" response ≡ none
    pub no_spec : get "spec" response ≡ none

  -- The triggers that a new pipeline stores are those that its run returns.
  stored_triggers :
      (request : Request) (r : Result (ReplicaMetrics F)) (ts : List (TriggerConfig F))
      (done : Pipeline F)
      → run (request_pipeline request) r ≡ (ok ts, done)
      → done.triggers ≡ ts
  unfolding request_pipeline new_pipeline run
  stored_triggers request (raise e) ts done h = absurd (cc h)
  stored_triggers request (ok m) ts done h = elim (run_inv (request_pipeline request) m ts done h) [
    | inl none_left ↦ ap (λ s. s.triggers) none_left.2 ∙ sym none_left.1
    | inr r ↦ sym (ap (λ s. s.triggers) r.stored)
  ]

  responds-done :
      (request : Request) (ts : List (TriggerConfig F)) (done : Pipeline F)
      → run (request_pipeline request) fetched ≡ (ok ts, done)
      → IsSuccess request (catch error_text (answer average request fetched))
        ⊎ IsFailure (catch error_text (answer average request fetched))
  unfolding answer pipeline_to_dict
  responds-done request ts done e = elim (Result-cases (get_stats average done)) [
    | inr (x, k) ↦ inr (record {
      cause = x;
      success_of = rw (e, k) refl;
      error_of = rw (e, k) refl;
      no_triggers = rw (e, k) refl;
      no_spec = rw (e, k) refl;
    })
    | inl (stats, k) ↦
        let stored : done.triggers ≡ ts = stored_triggers request fetched ts done e in
        inl (record {
          ts = ts;
          done = done;
          stats = stats;
          ran = e;
          counted = k;
          success_of = rw (e, k) refl;
          triggers_of = rw (e, k) (ap (λ xs. some (array (map to_dict xs))) stored);
          runnable = run-IsRunnable (request_pipeline request) fetched ts done e;
          stats_of = rw (e, k) refl;
          spec_of = elim (Bool-cases (wants_spec request)) [
            | inl w ↦ rw (e, k, w) refl
            | inr w ↦ rw (e, k, w) refl
          ];
          no_error = elim (Bool-cases (wants_spec request)) [
            | inl w ↦ rw (e, k, w) refl
            | inr w ↦ rw (e, k, w) refl
          ];
        })
  ]

  responds-raised :
      (request : Request) (x : Error) (done : Pipeline F)
      → run (request_pipeline request) fetched ≡ (raise x, done)
      → IsFailure (catch error_text (answer average request fetched))
  unfolding answer
  responds-raised request x done e = record {
    cause = x;
    success_of = rw e refl;
    error_of = rw e refl;
    no_triggers = rw e refl;
    no_spec = rw e refl;
  }

  answer_lem :
      (request : Request)
      → IsSuccess request (catch error_text (answer average request fetched))
        ⊎ IsFailure (catch error_text (answer average request fetched))
  answer_lem request =
      let r = run (request_pipeline request) fetched in
      elim (Result-cases r.0) [
        | inl (ts, e) ↦ responds-done request ts r.1 (ap (λ o. (o, r.1)) e)
        | inr (x, e) ↦ inr (responds-raised request x r.1 (ap (λ o. (o, r.1)) e))
      ]

module _ {F : Type 0} ⦃f : Float F⦄ (average : F → Json) (error_text : Error → String) where
  -- The answer to a request, if the fetcher ends.
  abbrev pub IsResponse : Request → Option (Result (ReplicaMetrics F)) → Option Json → Type 0
  IsResponse request answered r =
      ((answered ≡ none) × (r ≡ none))
      ⊎ ((fetched : Result (ReplicaMetrics F)) × (response : Json) × (answered ≡ some fetched)
          × (r ≡ some response)
          × (IsSuccess fetched average error_text request response
              ⊎ IsFailure fetched average error_text response))

  responded_lem :
      (request : Request) (answered : Option (Result (ReplicaMetrics F)))
      → IsResponse request answered (responded average error_text request answered)
  responded_lem request none = inl (refl, refl)
  responded_lem request (some fetched) =
      inr (fetched, _, refl, refl, answer_lem fetched average error_text request)

  pub generate_triggers_lem :
      (fetch : PrometheusConfig → FetchConfig → Option (Result (ReplicaMetrics F)))
      (request : Request)
      → let s : Pipeline F = request_pipeline request in
        IsResponse request
          (fetch s.prom_config s.fetch_config)
          (generate_triggers fetch average error_text request)
  unfolding generate_triggers
  generate_triggers_lem fetch request =
      let s : Pipeline F = request_pipeline request in
      responded_lem request (fetch s.prom_config s.fetch_config)
