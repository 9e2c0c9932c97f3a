-- ===== src/V1/Analyzer/Valid.antt =====
-- The times and days of merged patterns are those of a clock and a week.
use Prim.Native.Nat.{max}
use mathlib.Core.List.{foldl, flat_map}
use smart_hpa.Prelude.{
  ℕ, suc, ◌<◌, not, ◌&&◌, List, [], ◌∷◌, map, length, All, All-append, Bool-cases, inl, inr,
  foldl-min, leb, ltb, arith,
}
use smart_hpa.Prelude.Sort.{All-sorted}
use smart_hpa.Float.{Float}
use smart_hpa.V1.Naming.{TimePattern}
use smart_hpa.V1.Analyzer.Distinct.{All-distinct}
use smart_hpa.V1.Analyzer.{
  elem, distinct, are_similar, gather, merge_pattern_group, merged, merge_from,
  merge_similar_patterns,
}

-- Two times of a day, and days of a week.
abbrev pub IsValid : {F : Type 0} → TimePattern F → Type 0
IsValid p =
    (p.start_hour < 24)
    × (p.start_minute < 60)
    × (p.end_hour < 24)
    × (p.end_minute < 60)
    × All (λ d. d < 7) p.days

pub foldl-max_below :
    (n acc : ℕ) (xs : List ℕ) → acc < n → All (λ x. x < n) xs → foldl max acc xs < n
foldl-max_below n acc [] a h = a
foldl-max_below n acc (x ∷ xs) a h =
    foldl-max_below n (max acc x) xs (let b = h.0 in omega arith) h.1

module _ {F : Type 0} ⦃f : Float F⦄ where
  All-map :
      (P : ℕ → Type 0) (g : TimePattern F → ℕ) (ps : List (TimePattern F))
      → ((p : TimePattern F) → IsValid p → P (g p))
      → All IsValid ps
      → All P (map g ps)
  All-map P g [] k h = tt
  All-map P g (p ∷ ps) k h = (k p h.0, All-map P g ps k h.1)

  All-days :
      (ps : List (TimePattern F)) → All IsValid ps → All (λ d. d < 7) (flat_map (λ p. p.days) ps)
  unfolding flat_map
  All-days [] h = tt
  All-days (p ∷ ps) h =
      All-append (λ d. d < 7) p.days (flat_map (λ q. q.days) ps) h.0.4 (All-days ps h.1)

  merge_pattern_group-IsValid :
      (p : TimePattern F) (ps : List (TimePattern F))
      → IsValid p
      → All IsValid ps
      → IsValid (merge_pattern_group p ps)
  unfolding merge_pattern_group
  merge_pattern_group-IsValid p ps v h =
      let (first_hour, first_minute, last_hour, last_minute, on) = v in
      let low = foldl-min p.start_hour (map (λ q. q.start_hour) ps) in
      let low' = foldl-min p.start_minute (map (λ q. q.start_minute) ps) in
      (
        omega (arith, low.0),
        omega (arith, low'.0),
        foldl-max_below 24 p.end_hour (map (λ q. q.end_hour) ps) last_hour
            (All-map (λ x. x < 24) (λ q. q.end_hour) ps (λ q w. w.2) h),
        foldl-max_below 60 p.end_minute (map (λ q. q.end_minute) ps) last_minute
            (All-map (λ x. x < 60) (λ q. q.end_minute) ps (λ q w. w.3) h),
        All-sorted (λ x y. ltb y x) (λ d. d < 7) (distinct (flat_map (λ q. q.days) (p ∷ ps)))
            (All-distinct (λ d. d < 7) (flat_map (λ q. q.days) (p ∷ ps))
              (All-days (p ∷ ps) (v, h))),
      )

  merged-IsValid :
      (p : TimePattern F) (ps : List (TimePattern F))
      → IsValid p
      → All IsValid ps
      → IsValid (merged p ps)
  unfolding merged
  merged-IsValid p [] v h = v
  merged-IsValid p (q ∷ qs) v h = merge_pattern_group-IsValid p (q ∷ qs) v h

  gather-IsValid :
      (used : List ℕ) (p : TimePattern F) (j : ℕ) (qs : List (TimePattern F))
      → All IsValid qs
      → All IsValid (gather used p j qs).0
  unfolding gather
  gather-IsValid used p j [] h = tt
  gather-IsValid used p j (q ∷ qs) h = elim (Bool-cases (not (elem j used) && are_similar p q)) [
    | inl e ↦ rw e ((h.0, gather-IsValid (j ∷ used) p (suc j) qs h.1))
    | inr e ↦ rw e (gather-IsValid used p (suc j) qs h.1)
  ]

  merge_from-IsValid :
      (used : List ℕ) (i : ℕ) (ps : List (TimePattern F))
      → All IsValid ps
      → All IsValid (merge_from used i ps)
  unfolding merge_from
  merge_from-IsValid used i [] h = tt
  merge_from-IsValid used i (p ∷ ps) h = elim (Bool-cases (elem i used)) [
    | inl e ↦ rw e (merge_from-IsValid used (suc i) ps h.1)
    | inr e ↦ rw e (
      merged-IsValid p (gather used p (suc i) ps).0 h.0 (gather-IsValid used p (suc i) ps h.1),
      merge_from-IsValid (i ∷ (gather used p (suc i) ps).1) (suc i) ps h.1,
    )
  ]

  -- Merging keeps the times within the day and the days within the week.
  pub merge_similar_patterns-IsValid :
      (ps : List (TimePattern F)) → All IsValid ps → All IsValid (merge_similar_patterns ps)
  unfolding merge_similar_patterns
  merge_similar_patterns-IsValid ps h = elim (Bool-cases (leb (length ps) 1)) [
    | inl e ↦ rw e h
    | inr e ↦ rw e (merge_from-IsValid [] 0 ps h)
  ]
