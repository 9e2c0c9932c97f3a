-- ===== src/V2/Postprocessor/Process.antt =====
-- `process`: the triggers of the patterns, in order of priority, one for each window.
use mathlib.Core.Path.{subst}
use smart_hpa.Prelude.{
  ℕ, ◌≤◌, ◌≡◌, ◌≢◌, refl, String, List, [], ◌∷◌, All, Any, Pairs, Result, ok, raise, Ensures, ◌>>=◌,
  >>=-eq-ok, traverse, Each, traverse-Each, Each-All_right, Each-All_left, ltb, arith,
}
use smart_hpa.Prelude.Int.{ℤ}
use smart_hpa.Prelude.Sort.{All-sorted, All-of_sorted, sorted-Pairs}
use smart_hpa.Float.{Float}
use smart_hpa.V2.Config.{ModelConfig, PatternResult, TriggerConfig}
use smart_hpa.V2.Data.{ProcessedData}
use smart_hpa.V2.Naming.{recurring_text, hour_text}
use smart_hpa.V2.Postprocessor.{
  window_key, priority_order, window, generate_name, replica_range, pattern_to_trigger, by_priority,
  deduplicate, process, make_trigger,
}
use smart_hpa.V2.Postprocessor.Replicas.{
  IsRunnable, pattern_to_trigger-IsRunnable, default_triggers-IsRunnable,
}
use smart_hpa.V2.Postprocessor.Dedup.{Covers, Ranked, deduplicate_lem, All-deduplicate}

module _ {F : Type 0} where
  by_priority-Ranked : (ts : List (TriggerConfig F)) → Ranked (by_priority ts)
  unfolding by_priority
  by_priority-Ranked =
      sorted-Pairs (λ t u. ltb t.priority u.priority) (λ t u. u.priority ≤ t.priority)
        (λ t u v a b. omega arith) (λ t u e. ground arith) (λ t u e. ground arith)

  pub All-by_priority :
      (P : TriggerConfig F → Type 0) (ts : List (TriggerConfig F))
      → All P ts
      → All P (by_priority ts)
  unfolding by_priority
  All-by_priority P = All-sorted (λ t u. ltb t.priority u.priority) P

module _ {F : Type 0} where
  All-of_by_priority :
      (P : TriggerConfig F → Type 0) (ts : List (TriggerConfig F))
      → All P (by_priority ts)
      → All P ts
  unfolding by_priority
  All-of_by_priority P = All-of_sorted (λ t u. ltb t.priority u.priority) P

module _ {F : Type 0} ⦃f : Float F⦄ (config : ModelConfig F) (timezone : String) where
  -- The trigger `t` of the pattern `p`.
  pub record IsTriggerOf (p : PatternResult F) (t : TriggerConfig F) : Type 0 where
    pub kind : t.trigger_type ≡ p.pattern_type
    pub priority_of : t.priority ≡ priority_order p.pattern_type
    pub timezone_of : t.timezone ≡ timezone
    pub start : ℕ
    pub stop : ℕ
    pub window_of : window p.hours ≡ ok (start, stop)
    pub start_of : t.start_time ≡ hour_text start
    pub stop_of : t.end_time ≡ hour_text stop
    pub recurring_of : recurring_text p.days ≡ ok t.recurring
    pub replicas_of : replica_range config p ≡ ok (t.min_replicas, t.max_replicas)

  assembled :
      (p : PatternResult F) (t : TriggerConfig F) (rr : Result (ℤ × ℤ)) (rh : Result (ℕ × ℕ))
      (rs rn : Result String)
      → (do r ← rr; h ← rh; s ← rs; n ← rn; ok (make_trigger timezone p r h s n)) ≡ ok t
      → (r : ℤ × ℤ) × (h : ℕ × ℕ) × (s : String) × (n : String) × (rr ≡ ok r)
        × (rh ≡ ok h)
        × (rs ≡ ok s)
        × (make_trigger timezone p r h s n ≡ t)
  assembled p t (ok r) (ok h) (ok s) (ok n) e = (r, h, s, n, refl, refl, refl, cc)
  assembled p t (raise x) rh rs rn e = cc
  assembled p t (ok r) (raise x) rs rn e = cc
  assembled p t (ok r) (ok h) (raise x) rn e = cc
  assembled p t (ok r) (ok h) (ok s) (raise x) e = cc

  made-IsTriggerOf :
      (p : PatternResult F) (r : ℤ × ℤ) (h : ℕ × ℕ) (s n : String)
      → replica_range config p ≡ ok r
      → window p.hours ≡ ok h
      → recurring_text p.days ≡ ok s
      → IsTriggerOf p (make_trigger timezone p r h s n)
  made-IsTriggerOf p r h s n re he se = record {
    kind = refl;
    priority_of = refl;
    timezone_of = refl;
    start = h.0;
    stop = h.1;
    window_of = he;
    start_of = refl;
    stop_of = refl;
    recurring_of = se;
    replicas_of = re;
  }

  -- The trigger of a pattern has the pattern's type, that type's priority, the given timezone, the window
  -- and the days of the pattern, and its replica range.
  pub pattern_to_trigger-IsTriggerOf :
      (p : PatternResult F) (t : TriggerConfig F)
      → pattern_to_trigger config timezone p ≡ ok t
      → IsTriggerOf p t
  unfolding pattern_to_trigger
  pattern_to_trigger-IsTriggerOf p t e =
      let (r, h, s, n, re, he, se, same) =
        assembled p t (replica_range config p) (window p.hours) (recurring_text p.days)
          (generate_name p) e in
      subst (IsTriggerOf p) same (made-IsTriggerOf p r h s n re he se)

  -- Inversion of `process` on patterns.
  abbrev pub Makes : PatternResult F → TriggerConfig F → Type 0
  Makes p t = pattern_to_trigger config timezone p ≡ ok t

  abbrev pub Triggers : List (PatternResult F) → List (TriggerConfig F) → Type 0
  Triggers = Each Makes

  pub process_inv :
      (p : PatternResult F) (ps : List (PatternResult F)) (d : ProcessedData F)
      (ts : List (TriggerConfig F))
      → process config timezone (p ∷ ps) d ≡ ok ts
      → (all : List (TriggerConfig F)) × Triggers (p ∷ ps) all
        × (deduplicate (by_priority all) ≡ ts)
  unfolding process
  process_inv p ps d ts e =
      let (all, got, last) =
        >>=-eq-ok (traverse (pattern_to_trigger config timezone) (p ∷ ps)) _ e in
      (all, traverse-Each (pattern_to_trigger config timezone) (p ∷ ps) all got, cc)

  -- Every trigger that `process` returns has at least 1 minimum replica and no fewer maximum replicas
  -- than that, also the default triggers and for any values of the floats.
  pub process-IsRunnable :
      (ps : List (PatternResult F)) (d : ProcessedData F) (ts : List (TriggerConfig F))
      → process config timezone ps d ≡ ok ts
      → All IsRunnable ts
  process-IsRunnable [] d ts e =
      subst (Ensures (All IsRunnable)) e
        (unfold process in default_triggers-IsRunnable config timezone d)
  process-IsRunnable (p ∷ ps) d ts e =
      let (all, each, same) = process_inv p ps d ts e in
      subst (All IsRunnable) same (
        All-deduplicate IsRunnable (by_priority all) (
          All-by_priority IsRunnable all (
            Each-All_right {R = Makes} (pattern_to_trigger-IsRunnable config timezone) (p ∷ ps) all
              each)))

  -- The triggers that `process` returns for patterns stand in falling order of priority, no two of them
  -- have the same window and days, and for the trigger of each pattern one of them has its window and
  -- days and no lower priority.
  pub process_order :
      (p : PatternResult F) (ps : List (PatternResult F)) (d : ProcessedData F)
      (ts : List (TriggerConfig F))
      → process config timezone (p ∷ ps) d ≡ ok ts
      → Ranked ts
        × Pairs (λ t u. window_key u ≢ window_key t) ts
        × All
            (λ q.
              (t : TriggerConfig F) × (pattern_to_trigger config timezone q ≡ ok t)
              × Any (Covers t) ts)
            (p ∷ ps)
  process_order p ps d ts e =
      let (all, each, same) = process_inv p ps d ts e in
      let (ranked, distinct, covered) =
        deduplicate_lem (by_priority all) (by_priority-Ranked all) in
      subst
        (λ kept.
          Ranked kept
          × Pairs (λ t u. window_key u ≢ window_key t) kept
          × All (λ q. (t : TriggerConfig F) × Makes q t × Any (Covers t) kept) (p ∷ ps))
        same
        (
          ranked,
          distinct,
          Each-All_left {R = Makes} (λ q t c m. (t, m, c)) (p ∷ ps) all
              (All-of_by_priority (λ u. Any (Covers u) (deduplicate (by_priority all))) all covered)
              each,
        )
