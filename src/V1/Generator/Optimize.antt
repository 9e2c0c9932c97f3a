-- ===== src/V1/Generator/Optimize.antt =====
-- `_optimize_triggers`: the limit, the priorities, and what stays of each suggestion.
use Prim.Native.Nat.{min}
use smart_hpa.Prelude.{
  ℕ, suc, ◌≤◌, ◌≡◌, refl, ap, ◌∙◌, List, [], ◌∷◌, All, All-take, All-self, Any, Any-imp, inl, inr,
  length, length-take, String, ltb, arith, Bool-cases,
}
use smart_hpa.Prelude.Sort.{sorted, length-sorted, All-sorted}
use smart_hpa.Float.{Float}
use smart_hpa.V1.Config.{AnalysisConfig, TriggerSuggestion}
use smart_hpa.V1.Generator.{
  seen_count, unique_name, priority_at, limit_triggers, reassign, unique_names, optimize_triggers,
}

module _ {F : Type 0} where
  -- The same but for the name and the priority.
  pub record SameSchedule (s t : TriggerSuggestion F) : Type 0 where
    pub timezone_same : s.timezone ≡ t.timezone
    pub start_same : s.start_time ≡ t.start_time
    pub end_same : s.end_time ≡ t.end_time
    pub recurring_same : s.recurring ≡ t.recurring
    pub min_same : s.min_replicas ≡ t.min_replicas
    pub max_same : s.max_replicas ≡ t.max_replicas
    pub confidence_same : s.confidence ≡ t.confidence

  pub SameSchedule-refl : (t : TriggerSuggestion F) → SameSchedule t t
  SameSchedule-refl t = record {
    timezone_same = refl;
    start_same = refl;
    end_same = refl;
    recurring_same = refl;
    min_same = refl;
    max_same = refl;
    confidence_same = refl;
  }

  SameSchedule-trans :
      (s t u : TriggerSuggestion F) → SameSchedule s t → SameSchedule t u → SameSchedule s u
  SameSchedule-trans s t u a b = record {
    timezone_same = a.timezone_same ∙ b.timezone_same;
    start_same = a.start_same ∙ b.start_same;
    end_same = a.end_same ∙ b.end_same;
    recurring_same = a.recurring_same ∙ b.recurring_same;
    min_same = a.min_same ∙ b.min_same;
    max_same = a.max_same ∙ b.max_same;
    confidence_same = a.confidence_same ∙ b.confidence_same;
  }

  -- The priorities of the suggestions from place `i` on.
  abbrev pub IsPrioritized : AnalysisConfig F → ℕ → List (TriggerSuggestion F) → Type 0
  IsPrioritized config i [] = Unit
  IsPrioritized config i (t ∷ ts) =
      (t.priority ≡ priority_at config i) × IsPrioritized config (suc i) ts

  reassign-IsPrioritized :
      (config : AnalysisConfig F) (i : ℕ) (ts : List (TriggerSuggestion F))
      → IsPrioritized config i (reassign config i ts)
  unfolding reassign
  reassign-IsPrioritized config i [] = tt
  reassign-IsPrioritized config i (t ∷ ts) = (refl, reassign-IsPrioritized config (suc i) ts)

  unique_names-IsPrioritized :
      (config : AnalysisConfig F) (i : ℕ) (seen : List (String × ℕ))
      (ts : List (TriggerSuggestion F))
      → IsPrioritized config i ts
      → IsPrioritized config i (unique_names seen ts)
  unfolding unique_names
  unique_names-IsPrioritized config i seen [] h = tt
  unique_names-IsPrioritized config i seen (t ∷ ts) h = (
    h.0,
    unique_names-IsPrioritized config (suc i)
        ((t.name, (unique_name t.name (seen_count seen t.name)).1) ∷ seen) ts h.1,
  )

  length-reassign :
      (config : AnalysisConfig F) (i : ℕ) (ts : List (TriggerSuggestion F))
      → length (reassign config i ts) ≡ length ts
  unfolding reassign
  length-reassign config i [] = refl
  length-reassign config i (t ∷ ts) = ap suc (length-reassign config (suc i) ts)

  length-unique_names :
      (seen : List (String × ℕ)) (ts : List (TriggerSuggestion F))
      → length (unique_names seen ts) ≡ length ts
  unfolding unique_names
  length-unique_names seen [] = refl
  length-unique_names seen (t ∷ ts) =
      ap suc
        (length-unique_names ((t.name, (unique_name t.name (seen_count seen t.name)).1) ∷ seen) ts)

  -- A property that does not look at names and priorities.
  abbrev pub IsScheduleProperty : (TriggerSuggestion F → Type 0) → Type 0
  IsScheduleProperty P = (s t : TriggerSuggestion F) → SameSchedule s t → P s → P t

  module _ (P : TriggerSuggestion F → Type 0) (blind : IsScheduleProperty P) where
    All-reassign :
        (config : AnalysisConfig F) (i : ℕ) (ts : List (TriggerSuggestion F))
        → All P ts
        → All P (reassign config i ts)
    unfolding reassign
    All-reassign config i [] h = tt
    All-reassign config i (t ∷ ts) h = (
      blind t (record t { priority = priority_at config i })
          (record {
            timezone_same = refl;
            start_same = refl;
            end_same = refl;
            recurring_same = refl;
            min_same = refl;
            max_same = refl;
            confidence_same = refl;
          })
          h.0,
      All-reassign config (suc i) ts h.1,
    )

    All-unique_names :
        (seen : List (String × ℕ)) (ts : List (TriggerSuggestion F))
        → All P ts
        → All P (unique_names seen ts)
    unfolding unique_names
    All-unique_names seen [] h = tt
    All-unique_names seen (t ∷ ts) h = (
      blind t (record t { name = _ })
          (record {
            timezone_same = refl;
            start_same = refl;
            end_same = refl;
            recurring_same = refl;
            min_same = refl;
            max_same = refl;
            confidence_same = refl;
          })
          h.0,
      All-unique_names ((t.name, (unique_name t.name (seen_count seen t.name)).1) ∷ seen) ts h.1,
    )

module _ {F : Type 0} ⦃f : Float F⦄ where
  length-limit_triggers :
      (config : AnalysisConfig F) (ts : List (TriggerSuggestion F))
      → length (limit_triggers config ts) ≡ min (length ts) config.max_triggers
  unfolding limit_triggers
  length-limit_triggers config ts = elim (Bool-cases (ltb config.max_triggers (length ts))) [
    | inl e ↦
        let more : config.max_triggers
            ≤ length (sorted (λ s t. f.lt s.confidence t.confidence) ts) =
          ground (arith, length-sorted (λ s t. f.lt s.confidence t.confidence) ts) in
        rw
          (
            e,
            length-take config.max_triggers (sorted (λ s t. f.lt s.confidence t.confidence) ts)
                more,
          )
          (ground arith)
    | inr e ↦ rw e (ground arith)
  ]

  All-limit_triggers :
      (P : TriggerSuggestion F → Type 0) (config : AnalysisConfig F)
      (ts : List (TriggerSuggestion F))
      → All P ts
      → All P (limit_triggers config ts)
  unfolding limit_triggers
  All-limit_triggers P config ts h = elim (Bool-cases (ltb config.max_triggers (length ts))) [
    | inl e ↦ rw e (
        All-take P config.max_triggers (sorted (λ s t. f.lt s.confidence t.confidence) ts)
          (All-sorted (λ s t. f.lt s.confidence t.confidence) P ts h))
    | inr e ↦ rw e h
  ]

  pub All-optimize_triggers :
      (P : TriggerSuggestion F → Type 0) (blind : IsScheduleProperty P) (config : AnalysisConfig F)
      (ts : List (TriggerSuggestion F))
      → All P ts
      → All P (optimize_triggers config ts)
  unfolding optimize_triggers
  All-optimize_triggers P blind config [] h = tt
  All-optimize_triggers P blind config (t ∷ ts) h =
      let kept = limit_triggers config (t ∷ ts) in
      All-unique_names P blind [] (reassign config 0 kept)
        (All-reassign P blind config 0 kept (All-limit_triggers P config (t ∷ ts) h))

  -- Of any list of suggestions `_optimize_triggers` keeps as many as there are, but no more than
  -- `max_triggers`; the one at place i has the priority base_priority - i * priority_step; and each has
  -- the window, days, replicas and confidence of a given one.
  pub optimize_triggers_lem :
      (config : AnalysisConfig F) (ts : List (TriggerSuggestion F))
      → (length (optimize_triggers config ts) ≡ min (length ts) config.max_triggers)
        × IsPrioritized config 0 (optimize_triggers config ts)
        × All (λ t. Any (λ s. SameSchedule s t) ts) (optimize_triggers config ts)
  unfolding optimize_triggers
  optimize_triggers_lem config [] = (omega arith, tt, tt)
  optimize_triggers_lem config (t ∷ ts) =
      let kept = limit_triggers config (t ∷ ts) in
      (
        length-unique_names [] (reassign config 0 kept)
            ∙ length-reassign config 0 kept
            ∙ length-limit_triggers config (t ∷ ts),
        unique_names-IsPrioritized config 0 [] (reassign config 0 kept)
            (reassign-IsPrioritized config 0 kept),
        All-optimize_triggers (λ u. Any (λ s. SameSchedule s u) (t ∷ ts))
            (λ u v same m. Any-imp (λ s e. SameSchedule-trans s u v e same) (t ∷ ts) m) config
            (t ∷ ts) (All-self SameSchedule SameSchedule-refl (t ∷ ts)),
      )
