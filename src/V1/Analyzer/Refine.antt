-- ===== src/V1/Analyzer/Refine.antt =====
-- `_refine_patterns`: which patterns stay, and what of them.
use mathlib.Core.Path.{subst}
use mathlib.Core.List.{flat_map}
use smart_hpa.Prelude.{
  ℕ, suc, ◌≤◌, ◌≡◌, refl, Bool, true, false, ◌==◌, List, [], ◌∷◌, map, length, filter, All, All-imp,
  All-append, Any, inl, inr, ok, traverse, traverse-Each, Each, Ensures, Ensures-then, Ensures-ok,
  >>=-eq-ok, Bool-cases, ltb, arith,
}
use smart_hpa.Prelude.Int.{ℤ, pos, ◌-ℤ◌}
use smart_hpa.Float.{Float}
use smart_hpa.V1.Config.{AnalysisConfig}
use smart_hpa.V1.Naming.{TimePattern}
use smart_hpa.V1.Analyzer.{Row, elem, duration_hours, row_matches, refine_pattern, refine_patterns}

-- Of the list, `n` elements at different places have `P`.
pub data Picked {A : Type 0} (P : A → Type 0) : List A → ℕ → Type 0 where
  none_left : Picked P [] 0
  picked : {x : A} {xs : List A} {n : ℕ} → P x → Picked P xs n → Picked P (x ∷ xs) (suc n)
  skipped : {x : A} {xs : List A} {n : ℕ} → Picked P xs n → Picked P (x ∷ xs) n

filter-Picked :
    {A : Type 0} (b : A → Bool) (P : A → Type 0)
    → ((x : A) → b x ≡ true → P x)
    → (xs : List A) → Picked P xs (length (filter b xs))
filter-Picked b P h [] = none_left
filter-Picked b P h (x ∷ xs) = elim (Bool-cases (b x)) [
  | inl e ↦ rw e (picked (h x e) (filter-Picked b P h xs))
  | inr e ↦ rw e (skipped (filter-Picked b P h xs))
]

elem-Any : (n : ℕ) (ds : List ℕ) → elem n ds ≡ true → Any (λ d. d ≡ n) ds
elem-Any n [] e = absurd (grind arith)
elem-Any n (d ∷ ds) e = elim (Bool-cases (n == d)) [
  | inl same ↦ inl (ground arith)
  | inr other ↦ inr (elem-Any n ds (grind arith))
]

module _ {F : Type 0} ⦃f : Float F⦄ (config : AnalysisConfig F) (rows : List (Row F)) where
  -- The row's time lies between the hours of the pattern, on one of its days.
  abbrev pub LiesIn : TimePattern F → Row F → Type 0
  LiesIn q row =
      (q.start_hour ≤ row.hour) × (row.hour ≤ q.end_hour) × Any (λ d. d ≡ row.day_of_week) q.days

  -- From the start to the end, in hours: the difference of the hours, and of the minutes by 60.
  abbrev pub hours_of : TimePattern F → F
  hours_of q =
      f.add (f.of_int (pos q.end_hour -ℤ pos q.start_hour))
        (f.div (f.of_int (pos q.end_minute -ℤ pos q.start_minute)) (f.of_int (pos 60)))

  -- The pattern `q` has the times, days and confidence of `p`, is long enough, and at least 10 rows lie in
  -- it.
  pub record IsRefined (p q : TimePattern F) : Type 0 where
    pub start_same : (q.start_hour ≡ p.start_hour) × (q.start_minute ≡ p.start_minute)
    pub end_same : (q.end_hour ≡ p.end_hour) × (q.end_minute ≡ p.end_minute)
    pub days_same : q.days ≡ p.days
    pub confidence_same : q.confidence ≡ p.confidence
    pub long_enough : f.lt (hours_of q) config.min_pattern_duration_hours ≡ false
    pub seen : ℕ
    pub seen_rows : Picked (LiesIn q) rows seen
    pub seen_enough : 10 ≤ seen

  row_matches-LiesIn : (p : TimePattern F) (row : Row F) → row_matches p row ≡ true → LiesIn p row
  unfolding row_matches
  row_matches-LiesIn p row e =
      (ground arith, ground arith, elem-Any row.day_of_week p.days (grind arith))

  refined :
      (p : TimePattern F) (average : F) (peak : ℤ)
      → f.lt (duration_hours p) config.min_pattern_duration_hours ≡ false
      → 10 ≤ length (filter (row_matches p) rows)
      → IsRefined p (record p { avg_replicas = average; peak_replicas = peak })
  unfolding duration_hours ◌-ℤ◌
  refined p average peak long enough = record {
    start_same = (refl, refl);
    end_same = (refl, refl);
    days_same = refl;
    confidence_same = refl;
    long_enough = long;
    seen = length (filter (row_matches p) rows);
    seen_rows =
        filter-Picked (row_matches p)
          (LiesIn (record p { avg_replicas = average; peak_replicas = peak }))
          (row_matches-LiesIn p) rows;
    seen_enough = enough;
  }

module _ {F : Type 0} ⦃f : Float F⦄ (config : AnalysisConfig F) (has_replicas : Bool)
    (rows : List (Row F)) where
  refine_pattern-IsRefined :
      (p : TimePattern F)
      → Ensures (All (IsRefined config rows p)) (refine_pattern config has_replicas rows p)
  unfolding refine_pattern
  refine_pattern-IsRefined p =
      elim (Bool-cases (f.lt (duration_hours p) config.min_pattern_duration_hours)) [
        | inl e ↦ rw e tt
        | inr long ↦ elim (Bool-cases (ltb (length (filter (row_matches p) rows)) 10)) [
          | inl e ↦ rw (long, e) tt
          | inr e ↦
              let seen : 10 ≤ length (filter (row_matches p) rows) = ground arith in
              elim (Bool-cases has_replicas) [
                | inl r ↦
                    rw (long, e, r)
                      (Ensures-then (All (IsRefined config rows p))
                        (f.int (
                          f.ceil (
                            f.amax (
                              map (λ (row : Row F). row.replicas_mean)
                                (filter (row_matches p) rows)))))
                        _ (λ peak. (refined config rows p _ peak long seen, tt)))
                | inr r ↦
                    rw (long, e, r)
                      (refined config rows p p.avg_replicas p.peak_replicas long seen, tt)
              ]
        ]
      ]

  All-IsRefined :
      (ps : List (TimePattern F)) (qss : List (List (TimePattern F)))
      → Each (λ p qs. refine_pattern config has_replicas rows p ≡ ok qs) ps qss
      → All (λ q. Any (λ p. IsRefined config rows p q) ps) (flat_map (λ qs. qs) qss)
  unfolding flat_map
  All-IsRefined [] [] e = tt
  All-IsRefined [] (qs ∷ qss) e = elim e [ ]
  All-IsRefined (p ∷ ps) [] e = elim e [ ]
  All-IsRefined (p ∷ ps) (qs ∷ qss) e =
      All-append (λ q. Any (λ p. IsRefined config rows p q) (p ∷ ps)) qs (flat_map (λ qs. qs) qss)
        (All-imp (λ q h. inl h) qs
          (Ensures-ok (All (IsRefined config rows p)) (refine_pattern config has_replicas rows p) qs
            (refine_pattern-IsRefined p) e.0))
        (All-imp (λ q h. inr h) (flat_map (λ qs. qs) qss) (All-IsRefined ps qss e.1))

  -- Each pattern that the refinement returns has the times, days and confidence of a given one; from its
  -- start to its end it is not shorter than the configured hours; and at least 10 rows lie in it, on its
  -- days and from its first hour to its last.
  pub refine_patterns-IsRefined :
      (ps qs : List (TimePattern F))
      → refine_patterns config has_replicas rows ps ≡ ok qs
      → All (λ q. Any (λ p. IsRefined config rows p q) ps) qs
  unfolding refine_patterns
  refine_patterns-IsRefined ps qs h =
      let (qss, got, last) =
        >>=-eq-ok (traverse (refine_pattern config has_replicas rows) ps)
          (λ qss. ok (flat_map (λ qs. qs) qss)) h in
      let same : flat_map (λ qs. qs) qss ≡ qs = cc last in
      subst (All (λ q. Any (λ p. IsRefined config rows p q) ps)) same
        (All-IsRefined ps qss (traverse-Each (refine_pattern config has_replicas rows) ps qss got))
