-- ===== src/Tests/Generator.antt =====
-- The first generator on two patterns.
use Prim.Native.Nat.{min}
use smart_hpa.Prelude.{
  ℕ, ◌≡◌, refl, ok, raise, List, [], ◌∷◌, String, ◌+◌, All, Any, length, Result,
}
use smart_hpa.Prelude.Int.{pos, max_ℤ, ◌+ℤ◌}
use smart_hpa.V1.Config.{AnalysisConfig, analysis_config, TriggerSuggestion}
use smart_hpa.V1.Naming.{TimePattern}
use smart_hpa.V1.Generator.{Generator, optimize_triggers, generate}
use smart_hpa.V1.Generator.Replicas.{Scales}
use smart_hpa.V1.Generator.Optimize.{IsPrioritized, SameSchedule, optimize_triggers_lem}
use smart_hpa.V1.Generator.Generate.{generate_lem}
use smart_hpa.Tests.Sample.{hundredths}

abbrev settings : AnalysisConfig ℕ
settings = analysis_config

abbrev steady : ℕ → ℕ → TimePattern ℕ
steady start_hour average = record {
  start_hour = start_hour;
  start_minute = 15;
  end_hour = start_hour + 4;
  end_minute = 30;
  days = 4 ∷ 0 ∷ [];
  avg_cpu = 50;
  avg_memory = 60;
  avg_replicas = average;
  peak_replicas = pos 6;
  confidence = 80;
}

abbrev start : Generator ℕ
start = record { config = settings; timezone = "UTC"; patterns = []; suggestions = [] }

abbrev suggestion : String → ℕ → TriggerSuggestion ℕ
suggestion name priority = record {
  name = name;
  priority = pos priority;
  timezone = "UTC";
  start_time = "08:15:00";
  end_time = "12:30:00";
  recurring = "M,F";
  min_replicas = pos 3;
  max_replicas = pos 7;
  confidence = 80;
}

generate_runs :
    (generate start (steady 8 400 ∷ steady 8 400 ∷ [])).0
    ≡ ok (
        suggestion "custom-1-morning-normal-load" 100
        ∷ suggestion "custom-2-morning-normal-load" 90
        ∷ [])
unfolding generate analysis_config max_ℤ ◌+ℤ◌
generate_runs = refl

abbrev returned : Result (List (TriggerSuggestion ℕ)) → List (TriggerSuggestion ℕ)
returned (ok ts) = ts
returned (raise e) = []

abbrev made : List (TriggerSuggestion ℕ)
made = returned (generate start (steady 8 400 ∷ steady 18 200 ∷ [])).0

abbrev done : Generator ℕ
done = (generate start (steady 8 400 ∷ steady 18 200 ∷ [])).1

generate_returns : generate start (steady 8 400 ∷ steady 18 200 ∷ []) ≡ (ok made, done)
unfolding generate analysis_config
generate_returns = refl

generate_lem_example :
    (length made ≡ min 2 start.config.max_triggers)
    × IsPrioritized start.config 0 made
    × All Scales made
    × (done ≡ record start { patterns = steady 8 400 ∷ steady 18 200 ∷ []; suggestions = made })
generate_lem_example =
    generate_lem start (steady 8 400) (steady 18 200 ∷ []) made done generate_returns

-- Two suggestions of one name.
abbrev twins : List (TriggerSuggestion ℕ)
twins = suggestion "daily-morning-low-load" 10 ∷ suggestion "daily-morning-low-load" 10 ∷ []

optimize_runs :
    optimize_triggers settings twins
    ≡ suggestion "daily-morning-low-load" 100 ∷ suggestion "daily-morning-low-load-2" 90 ∷ []
unfolding optimize_triggers analysis_config
optimize_runs = refl

optimize_triggers_lem_example :
    (length (optimize_triggers settings twins) ≡ min 2 settings.max_triggers)
    × IsPrioritized settings 0 (optimize_triggers settings twins)
    × All (λ t. Any (λ s. SameSchedule s t) twins) (optimize_triggers settings twins)
optimize_triggers_lem_example = optimize_triggers_lem settings twins
