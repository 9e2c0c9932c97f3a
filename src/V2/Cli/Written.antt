-- ===== src/V2/Cli/Written.antt =====
-- The file of the command line of ml/v2/pipeline.py.
use smart_hpa.Prelude.{
  ◌≡◌, refl, sym, ap, ◌∙◌, ◌⊎◌, inl, inr, String, List, [], ◌∷◌, map, Option, none, some, Result,
  ok, raise, Error, All, Option-cases,
}
use smart_hpa.Prelude.Text.{concat}
use smart_hpa.Float.{Float}
use smart_hpa.Json.{array}
use smart_hpa.Files.{Format, yaml, json, smarthpa, Writers, Printed, unless_failed}
use smart_hpa.V2.Config.{FetchConfig, PrometheusConfig, TriggerConfig, to_dict}
use smart_hpa.V2.Data.{ReplicaMetrics}
use smart_hpa.V2.Postprocessor.{to_smarthpa_spec}
use smart_hpa.V2.Postprocessor.Replicas.{IsRunnable}
use smart_hpa.V2.Pipeline.{Pipeline, or_text, run, pipeline_to_dict, pipeline_spec}
use smart_hpa.V2.Pipeline.Stages.{run_inv, run-IsRunnable}
use smart_hpa.V2.Cli.{
  Args, or_none, to_json, to_yaml, to_smarthpa_yaml, args_pipeline, written_after, run_and_write,
  output_of, main,
}

module _ {F : Type 0} {T : Type 0} ⦃f : Float F⦄ (writers : Writers T) where
  -- The text of triggers in a format.
  abbrev pub text_of : Format → Args → List (TriggerConfig F) → T
  text_of yaml args ts = writers.yaml_dump (array (map to_dict ts))
  text_of json args ts = writers.dumps 2 (array (map to_dict ts))
  text_of smarthpa args ts = writers.yaml_dump (
      to_smarthpa_spec ts args.name (or_text (some args.namespace) "default")
        (or_text (or_none args.hpa_name) (concat (args.deployment ∷ "-hpa" ∷ []))))

  output_of_lem :
      (format : Format) (args : Args) (s : Pipeline F) (ts : List (TriggerConfig F))
      → s.triggers ≡ ts
      → s.fetch_config ≡ (args_pipeline {F = F} args).fetch_config
      → output_of writers format args s ≡ text_of format args ts
  unfolding to_json to_yaml to_smarthpa_yaml pipeline_to_dict pipeline_spec args_pipeline
  output_of_lem yaml args s ts t e = ap (λ us. writers.yaml_dump (array (map to_dict us))) t
  output_of_lem json args s ts t e = ap (λ us. writers.dumps 2 (array (map to_dict us))) t
  output_of_lem smarthpa args s ts t e = rw e (ap (λ us. text_of smarthpa args us) t)

  stored :
      (s : Pipeline F) (r : Result (ReplicaMetrics F)) (ts : List (TriggerConfig F))
      (done : Pipeline F)
      → s.triggers ≡ []
      → run s r ≡ (ok ts, done)
      → (done.triggers ≡ ts) × (done.fetch_config ≡ s.fetch_config)
  unfolding run
  stored s (raise x) ts done fresh e = absurd (cc e)
  stored s (ok m) ts done fresh e = elim (run_inv s m ts done e) [
    | inl empty ↦ (
      ap (λ (d : Pipeline F). d.triggers) empty.2 ∙ (fresh ∙ sym empty.1),
      ap (λ (d : Pipeline F). d.fetch_config) empty.2,
    )
    | inr r ↦ (
      sym (ap (λ (d : Pipeline F). d.triggers) r.stored),
      sym (ap (λ (d : Pipeline F). d.fetch_config) r.stored),
    )
  ]

  -- How the command line ends after the triggers `ts` are made: with the file, or with the exception of
  -- writing it.
  abbrev pub IsWritten :
      (String → T → Option Error) → Args → List (TriggerConfig F) → Result (Printed T) → Type 0
  IsWritten save args ts r =
      ((x : Error) × (save args.output (text_of args.format args ts) ≡ some x) × (r ≡ raise x))
      ⊎ ((save args.output (text_of args.format args ts) ≡ none)
          × ((p : Printed T) × (r ≡ ok p)
              × (p.path ≡ args.output)
              × (p.text ≡ text_of args.format args ts)))

  -- After the fetcher has ended.
  abbrev pub IsEnded :
      (String → T → Option Error) → Args → Result (ReplicaMetrics F) → Result (Printed T) → Type 0
  IsEnded save args fetched r =
      ((x : Error) × ((run (args_pipeline args) fetched).0 ≡ raise x) × (r ≡ raise x))
      ⊎ ((ts : List (TriggerConfig F)) × ((run (args_pipeline args) fetched).0 ≡ ok ts)
          × All IsRunnable ts
          × IsWritten save args ts r)

  saved-IsWritten :
      (save : String → T → Option Error) (args : Args) (ts : List (TriggerConfig F))
      (lines : List String) (text : T)
      → text ≡ text_of args.format args ts
      → IsWritten save args ts (
          unless_failed
            (save args.output text)
            (record { lines = lines; path = args.output; text = text }))
  saved-IsWritten save args ts lines text e = elim (Option-cases (save args.output text)) [
    | inl done ↦ rw done (inr (ap (save args.output) (sym e) ∙ done, (_, refl, refl, e)))
    | inr failed ↦ let (x, k) = failed in rw k (inl (x, ap (save args.output) (sym e) ∙ k, refl))
  ]

  written_after-IsEnded :
      (save : String → T → Option Error) (percent : F → String) (args : Args)
      (fetched : Result (ReplicaMetrics F)) (outcome : Result (List (TriggerConfig F)))
      → (run (args_pipeline args) fetched).0 ≡ outcome
      → IsEnded save args fetched
          (written_after writers save percent args (outcome, (run (args_pipeline args) fetched).1))
  unfolding args_pipeline
  written_after-IsEnded save percent args fetched (raise x) e = inl (x, e, refl)
  written_after-IsEnded save percent args fetched (ok ts) e =
      let s : Pipeline F = args_pipeline args in
      let done = (run s fetched).1 in
      let ran : run s fetched ≡ (ok ts, done) = ap (λ o. (o, done)) e in
      let (same, kept) = stored s fetched ts done refl ran in
      inr (
        ts,
        e,
        run-IsRunnable s fetched ts done ran,
        saved-IsWritten save args ts _ (output_of writers args.format args done)
            (output_of_lem args.format args done ts same kept),
      )

  run_and_write_lem :
      (save : String → T → Option Error) (percent : F → String) (args : Args)
      (answered : Option (Result (ReplicaMetrics F)))
      → ((answered ≡ none) × (run_and_write writers save percent args answered ≡ none))
        ⊎ ((fetched : Result (ReplicaMetrics F)) × (r : Result (Printed T)) × (answered
              ≡ some fetched)
            × (run_and_write writers save percent args answered ≡ some r)
            × IsEnded save args fetched r)
  run_and_write_lem save percent args none = inl (refl, refl)
  run_and_write_lem save percent args (some fetched) = inr (
    fetched,
    _,
    refl,
    refl,
    written_after-IsEnded save percent args fetched (run (args_pipeline args) fetched).0 refl,
  )

  -- If the fetcher does not end, the command line does not. If it ends, the command line ends with the
  -- exception of the run, which the fetcher or a stage raised; or the run returned triggers, each with at
  -- least 1 minimum replica and no fewer maximum replicas, and the text of just these, in the format of
  -- the arguments, was written to the path of the arguments, or the exception of that ends it.
  pub main-IsEnded :
      (fetch : PrometheusConfig → FetchConfig → Option (Result (ReplicaMetrics F)))
      (save : String → T → Option Error) (percent : F → String) (args : Args)
      → let s : Pipeline F = args_pipeline args in
        let answered = fetch s.prom_config s.fetch_config in
        ((answered ≡ none) × (main writers fetch save percent args ≡ none))
        ⊎ ((fetched : Result (ReplicaMetrics F)) × (r : Result (Printed T)) × (answered
              ≡ some fetched)
            × (main writers fetch save percent args ≡ some r)
            × IsEnded save args fetched r)
  unfolding main
  main-IsEnded fetch save percent args =
      let s : Pipeline F = args_pipeline args in
      run_and_write_lem save percent args (fetch s.prom_config s.fetch_config)
