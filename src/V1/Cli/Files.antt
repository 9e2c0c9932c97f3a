-- ===== src/V1/Cli/Files.antt =====
-- ml/trigger_generator.py: the texts of a generator and its command line.
use smart_hpa.Prelude.{
  ℕ, ◌+◌, String, List, [], ◌∷◌, ◌++◌, map, Result, ok, raise, ◌>>=◌, if◌then◌else◌,
}
use smart_hpa.Prelude.Text.{concat, decimal, int_text, str_eq}
use smart_hpa.Float.{Float}
use smart_hpa.Host.{Host}
use smart_hpa.Json.{Json, array}
use smart_hpa.Files.{Format, yaml, json, smarthpa, Writers, Printed, rule}
use smart_hpa.V1.Config.{TriggerSuggestion, suggestion_to_dict}
use smart_hpa.V1.Prometheus.{Api}
use smart_hpa.V1.Prometheus.Sample.{Metric}
use smart_hpa.V1.Analyzer.Tables.{Tools}
use smart_hpa.V1.Generator.{Generator, generate, generator_spec}
use smart_hpa.V1.Cli.{TriggerGenerator, new_generator, fetch_and_analyze}

-- The arguments, parsed.
pub record Args : Type 0 where
  pub prometheus_url : String
  pub namespace : String
  pub deployment : String
  pub days : ℕ
  pub timezone : String
  pub output : String
  pub format : Format
  pub hpa_name : String
  pub smarthpa_name : String

-- Without arguments.
abbrev pub default_args : Args
default_args = record {
  prometheus_url = "http://localhost:9090";
  namespace = "";
  deployment = "";
  days = 30;
  timezone = "UTC";
  output = "triggers.yaml";
  format = yaml;
  hpa_name = "my-hpa";
  smarthpa_name = "my-smarthpa";
}

module _ {F : Type 0} (percent : F → String) where
  -- The lines of a suggestion; `percent` is `f"{x:.1%}"`.
  abbrev pub suggestion_lines : ℕ → TriggerSuggestion F → List String
  suggestion_lines i t =
      concat ("\n" ∷ decimal i ∷ ". " ∷ t.name ∷ [])
      ∷ concat ("   Priority: " ∷ int_text t.priority ∷ [])
      ∷ concat ("   Schedule: " ∷ t.recurring ∷ " " ∷ t.start_time ∷ " - " ∷ t.end_time ∷ [])
      ∷ concat
          ("   Replicas: min=" ∷ int_text t.min_replicas ∷ ", max=" ∷ int_text t.max_replicas ∷ [])
      ∷ concat ("   Confidence: " ∷ percent t.confidence ∷ [])
      ∷ []

  unfoldable pub suggestions_lines : ℕ → List (TriggerSuggestion F) → List String
  unfolding concat decimal int_text
  suggestions_lines i [] = []
  suggestions_lines i (t ∷ ts) = suggestion_lines i t ++ suggestions_lines (i + 1) ts

  abbrev pub lines_of : List (TriggerSuggestion F) → List String
  lines_of [] = "No triggers generated." ∷ []
  lines_of (t ∷ ts) = suggestions_lines 1 (t ∷ ts) ++ (concat ("\n" ∷ rule ∷ []) ∷ [])

  -- `print_summary`: what it prints.
  unfoldable pub print_summary : Generator F → List String
  unfolding suggestions_lines
  print_summary s =
      concat ("\n" ∷ rule ∷ []) ∷ "TRIGGER SUGGESTIONS SUMMARY" ∷ rule ∷ lines_of s.suggestions

-- `to_dict`
unfoldable pub generator_to_dict : {F : Type 0} → Generator F → Json
unfolding suggestion_to_dict
generator_to_dict s = array (map suggestion_to_dict s.suggestions)

abbrev pub saved : {T : Type 0} → String → String → T → Printed T
saved message path text = record {
  lines = concat (message ∷ path ∷ []) ∷ [];
  path = path;
  text = text;
}

module _ {F : Type 0} {T : Type 0} ⦃f : Float F⦄ (writers : Writers T) where
  open writers use {dumps, yaml_dump}

  unfoldable pub to_json : ℕ → Generator F → T
  unfolding generator_to_dict
  to_json indent s = dumps indent (generator_to_dict s)

  unfoldable pub to_yaml : Generator F → T
  unfolding generator_to_dict
  to_yaml s = yaml_dump (generator_to_dict s)

  unfoldable pub save_json : String → Generator F → Printed T
  unfolding to_json
  save_json path s = saved "Saved triggers to " path (to_json 2 s)

  unfoldable pub save_yaml : String → Generator F → Printed T
  unfolding to_yaml
  save_yaml path s = saved "Saved triggers to " path (to_yaml s)

  unfoldable pub save_smarthpa_yaml : String → String → String → String → Generator F → Printed T
  unfolding generator_spec
  save_smarthpa_yaml path name namespace hpa_name s =
      saved "Saved SmartHPA spec to " path (yaml_dump (generator_spec s name namespace hpa_name))

  -- The branches on the format.
  abbrev pub save : Format → Args → Generator F → Printed T
  save json args s = save_json args.output s
  save smarthpa args s =
      save_smarthpa_yaml args.output args.smarthpa_name
        (if str_eq args.namespace "" then "default" else args.namespace) args.hpa_name s
  save yaml args s = save_yaml args.output s

  -- After `generate`.
  abbrev pub saved_after :
      (F → String) → Args → Result (List (TriggerSuggestion F)) × Generator F → Result (Printed T)
  saved_after percent args (raise e, s) = raise e
  saved_after percent args (ok suggestions, s) =
      let file = save args.format args s in
      ok (record file { lines = print_summary percent s ++ file.lines })

module _ {F : Type 0} ⦃f : Float F⦄ where
  unfoldable pub args_generator : Args → TriggerGenerator F
  unfolding new_generator
  args_generator args =
      new_generator args.prometheus_url args.namespace args.deployment "" [] args.timezone args.days

module _ {F : Type 0} {S : Type 0} ⦃f : Float F⦄ (api : Api F) (host : Host F S) (tools : Tools F)
    (minus_one : F) where
  -- `generate`, which fetches and analyzes first.
  unfoldable pub generate_all :
      (Metric → ℕ)
      → S
      → TriggerGenerator F
      → Result (Result (List (TriggerSuggestion F)) × Generator F)
  unfolding fetch_and_analyze generate
  generate_all now random s = do
    analyzed ← fetch_and_analyze api host tools minus_one s now random
    ok (generate s.generator analyzed.1)

  -- `main`. An exception ends it without a file; what `generate` prints is left out.
  unfoldable pub main :
      {T : Type 0} → Writers T → (Metric → ℕ) → S → (F → String) → Args → Result (Printed T)
  unfolding args_generator generate_all print_summary save_json save_yaml save_smarthpa_yaml
  main writers now random percent args = do
    generated ← generate_all now random (args_generator args)
    saved_after writers percent args generated
