-- ===== src/V1/Generator/Generate.antt =====
-- `generate`: what it returns and stores.
use Prim.Native.Nat.{min}
use mathlib.Core.Path.{subst}
use smart_hpa.Prelude.{
  ℕ, suc, ◌≡◌, refl, sym, ap, ◌∙◌, List, [], ◌∷◌, All, String, Result, ok, raise, Ensures,
  Ensures-ok, Ensures-then, Ensures-bind, length,
}
use smart_hpa.Prelude.Int.{ℤ, pos, ◌≤ℤ◌, ◌<ℤ◌}
use smart_hpa.Prelude.Sort.{sorted, length-sorted}
use smart_hpa.Float.{Float}
use smart_hpa.V1.Config.{AnalysisConfig, TriggerSuggestion}
use smart_hpa.V1.Naming.{TimePattern}
use smart_hpa.V1.Generator.{
  Generator, suggest, suggest_from, patterns_to_triggers, optimize_triggers, generate_optimized,
  generate,
}
use smart_hpa.V1.Generator.Replicas.{Scales, suggest_from-Scales}
use smart_hpa.V1.Generator.Optimize.{
  IsPrioritized, SameSchedule, optimize_triggers_lem, All-optimize_triggers,
}

module _ {F : Type 0} ⦃f : Float F⦄ where
  Scales-blind : (s t : TriggerSuggestion F) → SameSchedule s t → Scales s → Scales t
  Scales-blind s t same h =
      let both : (s.min_replicas, s.max_replicas) ≡ (t.min_replicas, t.max_replicas) =
        cc (same.min_same, same.max_same) in
      subst (λ (r : ℤ × ℤ). (pos 1 ≤ℤ r.0) × (r.0 <ℤ r.1)) both h

  length-suggest_from :
      (config : AnalysisConfig F) (timezone : String) (i : ℕ) (ps : List (TimePattern F))
      → Ensures (λ ts. length ts ≡ length ps) (suggest_from config timezone i ps)
  unfolding suggest_from
  length-suggest_from config timezone i [] = refl
  length-suggest_from config timezone i (p ∷ ps) =
      Ensures-then (λ ts. length ts ≡ suc (length ps)) (suggest config timezone i p) _
        λ s.
          Ensures-bind (λ ts. length ts ≡ length ps) (λ ts. length ts ≡ suc (length ps))
            (suggest_from config timezone (suc i) ps) _
            (length-suggest_from config timezone (suc i) ps) (λ rest e. ap suc e)

  length-patterns_to_triggers :
      (config : AnalysisConfig F) (timezone : String) (ps : List (TimePattern F))
      → Ensures (λ ts. length ts ≡ length ps) (patterns_to_triggers config timezone ps)
  unfolding patterns_to_triggers
  length-patterns_to_triggers config timezone ps =
      subst (λ n. Ensures (λ ts. length ts ≡ n) (patterns_to_triggers config timezone ps))
        (length-sorted (λ p q. f.lt p.avg_replicas q.avg_replicas) ps)
        (length-suggest_from config timezone 0
          (sorted (λ p q. f.lt p.avg_replicas q.avg_replicas) ps))

  patterns_to_triggers-Scales :
      (config : AnalysisConfig F) (timezone : String) (ps : List (TimePattern F))
      → Ensures (All Scales) (patterns_to_triggers config timezone ps)
  unfolding patterns_to_triggers
  patterns_to_triggers-Scales config timezone ps =
      suggest_from-Scales config timezone 0 (sorted (λ p q. f.lt p.avg_replicas q.avg_replicas) ps)

  optimized_inv :
      (s : Generator F) (r : Result (List (TriggerSuggestion F))) (ts : List (TriggerSuggestion F))
      (done : Generator F)
      → generate_optimized s r ≡ (ok ts, done)
      → (all : List (TriggerSuggestion F)) × (r ≡ ok all)
        × (optimize_triggers s.config all ≡ ts)
        × (record s { suggestions = ts } ≡ done)
  unfolding generate_optimized
  optimized_inv s (raise e) ts done h = cc
  optimized_inv s (ok all) ts done h =
      let same : optimize_triggers s.config all ≡ ts = cc h in
      (all, refl, same, sym (ap (λ xs. record s { suggestions = xs }) same) ∙ ap (λ p. p.1) h)

  -- If `generate` returns for at least one pattern, it returns one suggestion for each pattern, but no
  -- more than `max_triggers`, with the priorities base_priority - i * priority_step in their order, each
  -- with at least 1 minimum replica and more maximum replicas, and it stores the suggestions and the
  -- patterns.
  pub generate_lem :
      (s : Generator F) (p : TimePattern F) (ps : List (TimePattern F))
      (ts : List (TriggerSuggestion F)) (done : Generator F)
      → generate s (p ∷ ps) ≡ (ok ts, done)
      → (length ts ≡ min (suc (length ps)) s.config.max_triggers)
        × IsPrioritized s.config 0 ts
        × All Scales ts
        × (done ≡ record s { patterns = p ∷ ps; suggestions = ts })
  unfolding generate
  generate_lem s p ps ts done h =
      let (all, made, same, last) =
        optimized_inv (record s { patterns = p ∷ ps })
          (patterns_to_triggers s.config s.timezone (p ∷ ps)) ts done h in
      let (len, prioritized, _) = optimize_triggers_lem s.config all in
      let as_many =
        Ensures-ok (λ xs. length xs ≡ suc (length ps))
          (patterns_to_triggers s.config s.timezone (p ∷ ps)) all
          (length-patterns_to_triggers s.config s.timezone (p ∷ ps)) made in
      let scales =
        Ensures-ok (All Scales) (patterns_to_triggers s.config s.timezone (p ∷ ps)) all
          (patterns_to_triggers-Scales s.config s.timezone (p ∷ ps)) made in
      (
        ap length (sym same) ∙ len ∙ ap (λ n. min n s.config.max_triggers) as_many,
        subst (IsPrioritized s.config 0) same prioritized,
        subst (All Scales) same (All-optimize_triggers Scales Scales-blind s.config all scales),
        sym last,
      )
