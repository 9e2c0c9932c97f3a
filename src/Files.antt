-- ===== src/Files.antt =====
-- The files that the command lines of ml write, and the libraries that write them.
use smart_hpa.Prelude.{ℕ, String, List, Option, none, some, Result, Error, ok, raise}
use smart_hpa.Json.{Json}

-- `--format`
pub data Format : Type 0 where
  yaml json smarthpa : Format

-- `json.dumps(value, indent=n)` and `yaml.dump(value, default_flow_style=False)`.
-- `T` is the type of the contents of files.
pub record Writers (T : Type 0) : Type 0 where
  pub dumps : ℕ → Json → T
  pub yaml_dump : Json → T

-- The lines that are printed, and the path and the text of the file that is written.
pub record Printed (T : Type 0) : Type 0 where
  pub lines : List String
  pub path : String
  pub text : T

-- What is printed, unless writing the file fails.
abbrev pub unless_failed : {T : Type 0} → Option Error → Printed T → Result (Printed T)
unless_failed none printed = ok printed
unless_failed (some e) printed = raise e

-- `"=" * 60`
abbrev pub rule : String
rule = "============================================================"
