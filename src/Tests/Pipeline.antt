-- ===== src/Tests/Pipeline.antt =====
-- A run on three samples, where the model finds a night pattern and an off-peak pattern.
use smart_hpa.Prelude.{String, Error, Option, none}
use smart_hpa.V2.Config.{PrometheusConfig, FetchConfig}
use smart_hpa.Prelude.Text.{concat, decimal}
use smart_hpa.Json.{Json}
use smart_hpa.Files.{smarthpa, Writers, Printed}
use smart_hpa.V2.Cli.{Args, default_args, args_pipeline, main}
use smart_hpa.V2.Cli.Written.{IsEnded, main-IsEnded}
use smart_hpa.Prelude.{
  false, index_error, ℕ, ◌≡◌, ◌≢◌, refl, ◌⊎◌, inl, inr, true, List, [], ◌∷◌, map, All, Result, ok,
  raise, some,
}
use smart_hpa.V2.Config.{model_config, peak, off_peak, night, TriggerConfig, PatternResult}
use smart_hpa.V2.Data.{ReplicaMetrics, ProcessedData, is_empty}
use smart_hpa.V2.Preprocessor.{preprocess}
use smart_hpa.V2.Model.{infer}
use smart_hpa.V2.Model.Total.{IsUsable}
use smart_hpa.V2.Postprocessor.{process}
use smart_hpa.V2.Pipeline.{Pipeline, new_pipeline, run, run_triggers}
use smart_hpa.V2.Pipeline.Stages.{IsRun, run_inv, run_stages}
use smart_hpa.V2.Pipeline.Raised.{run_raised}
use smart_hpa.V2.Pipeline.Night.{run_hides_off_peak}
use smart_hpa.Tests.Sample.{hundredths, fetch_config, metrics}
use smart_hpa.Tests.Fetcher.{metrics-IsAligned}
use smart_hpa.Tests.Model.{usable}

abbrev start : Pipeline ℕ
start = new_pipeline "http://localhost:9090" fetch_config "UTC"

abbrev returned : Result (List (TriggerConfig ℕ)) → List (TriggerConfig ℕ)
returned (ok ts) = ts
returned (raise e) = []

abbrev triggers : List (TriggerConfig ℕ)
triggers = returned (run start (ok metrics)).0

abbrev done : Pipeline ℕ
done = (run start (ok metrics)).1

run_kinds : map (λ p. p.pattern_type) done.patterns ≡ peak ∷ off_peak ∷ night ∷ []
unfolding run preprocess infer new_pipeline model_config process
run_kinds = refl

run_runs : run start (ok metrics) ≡ (ok triggers, done)
unfolding run preprocess infer new_pipeline model_config process
run_runs = refl

run_inv_example :
    ((is_empty metrics ≡ true) × (triggers ≡ []) × (done ≡ record start { metrics = some metrics }))
    ⊎ IsRun start metrics triggers done
run_inv_example = run_inv start metrics triggers done run_runs

start-usable : IsUsable start.model
unfolding new_pipeline
start-usable = usable

run_stages_example :
    (d : ProcessedData ℕ) × (ps : List (PatternResult ℕ)) × (preprocess 300 metrics ≡ ok d)
    × (infer start.model d ≡ ok ps)
    × (run start (ok metrics)
        ≡ run_triggers
            (record start { metrics = some metrics; processed = some d; patterns = ps })
            (process start.model start.timezone ps d))
run_stages_example = run_stages start metrics start-usable metrics-IsAligned refl

run_hides_off_peak_example : All (λ t. t.trigger_type ≢ off_peak) triggers
unfolding run preprocess infer new_pipeline model_config process
run_hides_off_peak_example =
    run_hides_off_peak start metrics triggers done refl run_runs (inr (inr (inl refl)))

-- Metrics with an hour that is none, at which the preprocessor raises.
abbrev bad_metrics : ReplicaMetrics ℕ
bad_metrics = record metrics { hours = 30 ∷ [] }

abbrev stopped : Pipeline ℕ
stopped = (run start (ok bad_metrics)).1

run_stops : run start (ok bad_metrics) ≡ (raise index_error, stopped)
unfolding run preprocess new_pipeline
run_stops = refl

run_raised_example :
    ((ok bad_metrics ≡ raise index_error) × (stopped ≡ start))
    ⊎ ((m : ReplicaMetrics ℕ) × (ok bad_metrics ≡ ok m)
        × (is_empty m ≡ false)
        × (stopped.metrics ≡ some m)
        × (stopped.triggers ≡ start.triggers))
run_raised_example = run_raised start (ok bad_metrics) index_error stopped run_stops

-- Texts as lists of what was dumped.
abbrev writers : Writers Json
writers = record { dumps = λ n j. j; yaml_dump = λ j. j }

abbrev args : Args
args = record default_args { format = smarthpa; deployment = "cart" }

abbrev percent : ℕ → String
percent x = concat (decimal x ∷ "%" ∷ [])

abbrev fetched : PrometheusConfig → FetchConfig → Option (Result (ReplicaMetrics ℕ))
fetched c d = some (ok metrics)

abbrev save : String → Json → Option Error
save path text = none

main-IsEnded_example :
    let s : Pipeline ℕ = args_pipeline args in
    let answered = fetched s.prom_config s.fetch_config in
    ((answered ≡ none) × (main writers fetched save percent args ≡ none))
    ⊎ ((f : Result (ReplicaMetrics ℕ)) × (r : Result (Printed Json)) × (answered ≡ some f)
        × (main writers fetched save percent args ≡ some r)
        × IsEnded writers save args f r)
main-IsEnded_example = main-IsEnded writers fetched save percent args
