-- ===== src/V2/Cli.antt =====
-- ml/v2/pipeline.py: the texts of a pipeline and its command line.
pub mod Written
use smart_hpa.Prelude.{
  ℕ, ◌+◌, ◌≡◌, refl, sym, String, List, [], ◌∷◌, ◌++◌, map, Option, none, some, Result, Error, ok,
  raise, All, ◌>>=◌, if◌then◌else◌,
}
use smart_hpa.Prelude.Text.{concat, decimal, int_text, str_eq}
use smart_hpa.Float.{Float}
use smart_hpa.Json.{Json, array}
use smart_hpa.Files.{Format, yaml, json, smarthpa, Writers, Printed, unless_failed, rule}
use smart_hpa.V2.Config.{FetchConfig, PrometheusConfig, TriggerConfig, value, to_dict}
use smart_hpa.V2.Data.{ReplicaMetrics}
use smart_hpa.V2.Pipeline.{Pipeline, new_pipeline, run, pipeline_to_dict, pipeline_spec}

-- The arguments, parsed.
pub record Args : Type 0 where
  pub prometheus_url : String
  pub namespace : String
  pub deployment : String
  pub days : ℕ
  pub timezone : String
  pub output : String
  pub format : Format
  pub name : String
  pub hpa_name : String

-- Without arguments.
abbrev pub default_args : Args
default_args = record {
  prometheus_url = "http://localhost:9090";
  namespace = "";
  deployment = "";
  days = 30;
  timezone = "UTC";
  output = "triggers.yaml";
  format = yaml;
  name = "my-smarthpa";
  hpa_name = "";
}

-- `args.hpa_name or None`
abbrev pub or_none : String → Option String
or_none text = if str_eq text "" then none else some text

module _ {F : Type 0} (percent : F → String) where
  -- The lines of a trigger; `percent` is `f"{x:.1%}"`.
  abbrev pub summary_entry : ℕ → TriggerConfig F → List String
  summary_entry i t =
      concat ("\n" ∷ decimal i ∷ ". " ∷ t.name ∷ [])
      ∷ concat ("   Type: " ∷ value t.trigger_type ∷ [])
      ∷ concat ("   Priority: " ∷ decimal t.priority ∷ [])
      ∷ concat ("   Schedule: " ∷ t.recurring ∷ " " ∷ t.start_time ∷ "-" ∷ t.end_time ∷ [])
      ∷ concat
          ("   Replicas: min=" ∷ int_text t.min_replicas ∷ ", max=" ∷ int_text t.max_replicas ∷ [])
      ∷ concat ("   Confidence: " ∷ percent t.confidence ∷ [])
      ∷ []

  unfoldable pub summary_entries : ℕ → List (TriggerConfig F) → List String
  unfolding concat decimal int_text value
  summary_entries i [] = []
  summary_entries i (t ∷ triggers) = summary_entry i t ++ summary_entries (i + 1) triggers

  abbrev pub summary_of : List (TriggerConfig F) → List String
  summary_of [] = "No triggers generated." ∷ []
  summary_of (t ∷ triggers) = summary_entries 1 (t ∷ triggers) ++ (concat ("\n" ∷ rule ∷ []) ∷ [])

  -- `print_summary`: what it prints.
  unfoldable pub print_summary : Pipeline F → List String
  unfolding summary_entries
  print_summary s = concat ("\n" ∷ rule ∷ []) ∷ "TRIGGER SUMMARY" ∷ rule ∷ summary_of s.triggers

module _ {F : Type 0} ⦃f : Float F⦄ where
  unfoldable pub args_pipeline : Args → Pipeline F
  unfolding new_pipeline
  args_pipeline args =
      new_pipeline args.prometheus_url
        (record {
          days = args.days;
          step_minutes = 5;
          namespace = args.namespace;
          deployment = args.deployment;
          custom_labels = [];
        })
        args.timezone

module _ {F : Type 0} {T : Type 0} ⦃f : Float F⦄ (writers : Writers T) where
  open writers use {dumps, yaml_dump}

  unfoldable pub to_json : ℕ → Pipeline F → T
  unfolding pipeline_to_dict
  to_json indent s = dumps indent (pipeline_to_dict s)

  unfoldable pub to_yaml : Pipeline F → T
  unfolding pipeline_to_dict
  to_yaml s = yaml_dump (pipeline_to_dict s)

  unfoldable pub to_smarthpa_yaml : Pipeline F → String → Option String → Option String → T
  unfolding pipeline_spec
  to_smarthpa_yaml s name namespace hpa_name = yaml_dump (pipeline_spec s name namespace hpa_name)

  -- The text of the file.
  abbrev pub output_of : Format → Args → Pipeline F → T
  output_of json args s = to_json 2 s
  output_of smarthpa args s = to_smarthpa_yaml s args.name none (or_none args.hpa_name)
  output_of yaml args s = to_yaml s

  -- After the run. `save` opens a path and writes a text, `none` if it does not fail.
  abbrev pub written_after :
      (String → T → Option Error)
      → (F → String)
      → Args
      → Result (List (TriggerConfig F)) × Pipeline F
      → Result (Printed T)
  written_after save percent args (raise e, s) = raise e
  written_after save percent args (ok triggers, s) =
      let text = output_of args.format args s in
      unless_failed (save args.output text) (record {
        lines = print_summary percent s ++ (concat ("\nSaved to " ∷ args.output ∷ []) ∷ []);
        path = args.output;
        text = text;
      })

  abbrev pub run_and_write :
      (String → T → Option Error)
      → (F → String)
      → Args
      → Option (Result (ReplicaMetrics F))
      → Option (Result (Printed T))
  run_and_write save percent args none = none
  run_and_write save percent args (some fetched) =
      some (written_after save percent args (run (args_pipeline args) fetched))

  -- `main`, `none` if it does not end; `fetch` is the fetcher of the new pipeline. An exception ends it
  -- without a file that is complete.
  unfoldable pub main :
      (PrometheusConfig → FetchConfig → Option (Result (ReplicaMetrics F)))
      → (String → T → Option Error)
      → (F → String)
      → Args
      → Option (Result (Printed T))
  unfolding args_pipeline run print_summary to_json to_yaml to_smarthpa_yaml
  main fetch save percent args =
      let s : Pipeline F = args_pipeline args in
      run_and_write save percent args (fetch s.prom_config s.fetch_config)
