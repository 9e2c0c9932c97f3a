-- ===== src/Tests/Analyzer.antt =====
-- The analyzer on three patterns, of which two are merged.
use smart_hpa.Prelude.{
  true, List, ok, All, Any, ℕ, ◌≡◌, refl, raise, value_error, [], ◌∷◌, Result, map, if◌then◌else◌,
  ◌==◌,
}
use mathlib.Core.List.{flat_map}
use smart_hpa.Prelude.Int.{pos}
use smart_hpa.V1.Config.{analysis_config, AnalysisConfig}
use smart_hpa.V1.Naming.{TimePattern}
use smart_hpa.V1.Analyzer.Refine.{IsRefined, refine_patterns-IsRefined}
use smart_hpa.V1.Analyzer.{Row, refine_patterns, find_optimal_clusters, merge_similar_patterns}
use smart_hpa.V1.Analyzer.Group.{Spans}
use smart_hpa.V1.Analyzer.Merge.{merge_similar_patterns-Spans}
use smart_hpa.Tests.Sample.{hundredths}

abbrev stretch : ℕ → ℕ → ℕ → ℕ → TimePattern ℕ
stretch from from_minute to to_minute = record {
  start_hour = from;
  start_minute = from_minute;
  end_hour = to;
  end_minute = to_minute;
  days = 0 ∷ 1 ∷ [];
  avg_cpu = 50;
  avg_memory = 60;
  avg_replicas = 300;
  peak_replicas = pos 4;
  confidence = 80;
}

abbrev scores : ℕ → Result ℕ
scores k = if k == 2 then ok 40 else if k == 3 then ok 70 else raise value_error

abbrev settings : AnalysisConfig ℕ
settings = analysis_config

finds_three : (find_optimal_clusters (λ k. ok k) scores 0 settings 20).0 ≡ 3
unfolding find_optimal_clusters analysis_config
finds_three = refl

merges :
    map
      (λ p. p.end_hour)
      (merge_similar_patterns (stretch 8 0 11 0 ∷ stretch 18 0 20 0 ∷ stretch 10 30 12 15 ∷ []))
    ≡ 12 ∷ 20 ∷ []
unfolding merge_similar_patterns
merges = refl

merge_similar_patterns-Spans_example :
    All
      (λ p.
        Any
          (λ q. Spans q p)
          (merge_similar_patterns
            (stretch 8 0 11 0 ∷ stretch 18 0 20 0 ∷ stretch 10 30 12 15 ∷ [])))
      (stretch 8 0 11 0 ∷ stretch 18 0 20 0 ∷ stretch 10 30 12 15 ∷ [])
merge_similar_patterns-Spans_example =
    merge_similar_patterns-Spans (stretch 8 0 11 0 ∷ stretch 18 0 20 0 ∷ stretch 10 30 12 15 ∷ [])

abbrev row : Row ℕ
row = record { hour = 9; day_of_week = 0; replicas_mean = 350 }

abbrev rows : List (Row ℕ)
rows = row ∷ row ∷ row ∷ row ∷ row ∷ row ∷ row ∷ row ∷ row ∷ row ∷ []

-- The long pattern on the rows stays, with new replicas; the one in the evening holds no row.
refines :
    refine_patterns settings true rows (stretch 8 0 11 0 ∷ stretch 18 0 20 0 ∷ [])
    ≡ ok (record (stretch 8 0 11 0) { avg_replicas = 350; peak_replicas = pos 4 } ∷ [])
unfolding refine_patterns analysis_config flat_map
refines = refl

refine_patterns-IsRefined_example :
    All
      (λ q. Any (λ p. IsRefined settings rows p q) (stretch 8 0 11 0 ∷ stretch 18 0 20 0 ∷ []))
      (record (stretch 8 0 11 0) { avg_replicas = 350; peak_replicas = pos 4 } ∷ [])
refine_patterns-IsRefined_example =
    refine_patterns-IsRefined settings true rows (stretch 8 0 11 0 ∷ stretch 18 0 20 0 ∷ [])
      (record (stretch 8 0 11 0) { avg_replicas = 350; peak_replicas = pos 4 } ∷ []) refines
