-- ===== src/V1/Analyzer/Group.antt =====
-- `_merge_pattern_group`: the merged pattern spans each pattern of the group.
use Prim.Native.Nat.{min, max}
use mathlib.Core.List.{foldl, flat_map}
use smart_hpa.Prelude.{
  ◌+◌, ◌*◌, ◌≤◌, ◌≡◌, refl, inl, inr, List, [], ◌∷◌, map, All, All-imp, All-and, All-self, Any,
  Any-append, All-of_map, arith, foldl-min, foldl-max, ltb,
}
use smart_hpa.Prelude.Sort.{Any-sorted}
use smart_hpa.Float.{Float}
use smart_hpa.V1.Naming.{TimePattern}
use smart_hpa.V1.Analyzer.Distinct.{Any-distinct}
use smart_hpa.V1.Analyzer.{distinct, merge_pattern_group, merged}

-- `q` starts no later than `p`, ends no earlier, and has all of its days.
pub record Spans {F : Type 0} (q p : TimePattern F) : Type 0 where
  pub starts : q.start_hour * 60 + q.start_minute ≤ p.start_hour * 60 + p.start_minute
  pub ends : p.end_hour * 60 + p.end_minute ≤ q.end_hour * 60 + q.end_minute
  pub on_days : All (λ d. Any (λ e. e ≡ d) q.days) p.days

module _ {F : Type 0} where
  All-days :
      (qs : List (TimePattern F))
      → All (λ q. All (λ d. Any (λ e. e ≡ d) (flat_map (λ p. p.days) qs)) q.days) qs
  unfolding flat_map
  All-days [] = tt
  All-days (q ∷ qs) = (
    All-imp (λ d m. Any-append (λ e. e ≡ d) q.days (flat_map (λ p. p.days) qs) (inl m)) q.days
        (All-self (λ a b. a ≡ b) (λ a. refl) q.days),
    All-imp
        (λ p h.
          All-imp (λ d m. Any-append (λ e. e ≡ d) q.days (flat_map (λ r. r.days) qs) (inr m)) p.days
            h)
        qs (All-days qs),
  )

  pub Spans-refl : (p : TimePattern F) → Spans p p
  Spans-refl p = record {
    starts = omega arith;
    ends = omega arith;
    on_days = All-self (λ a b. a ≡ b) (λ a. refl) p.days;
  }

  Spans-each :
      (m : TimePattern F) (ps : List (TimePattern F))
      → All (λ q. m.start_hour * 60 + m.start_minute ≤ q.start_hour * 60 + q.start_minute) ps
      → All (λ q. q.end_hour * 60 + q.end_minute ≤ m.end_hour * 60 + m.end_minute) ps
      → All (λ q. All (λ d. Any (λ e. e ≡ d) m.days) q.days) ps
      → All (Spans m) ps
  Spans-each m [] s e d = tt
  Spans-each m (q ∷ qs) s e d =
      (record { starts = s.0; ends = e.0; on_days = d.0 }, Spans-each m qs s.1 e.1 d.1)

module _ {F : Type 0} ⦃f : Float F⦄ where
  -- The merged pattern starts no later and ends no earlier than each pattern of the group, and has all of
  -- their days.
  pub merge_pattern_group-Spans :
      (p : TimePattern F) (ps : List (TimePattern F))
      → All (Spans (merge_pattern_group p ps)) (p ∷ ps)
  unfolding merge_pattern_group
  merge_pattern_group-Spans p ps =
      let (sh, shs) = foldl-min p.start_hour (map (λ q. q.start_hour) ps) in
      let (sm, sms) = foldl-min p.start_minute (map (λ q. q.start_minute) ps) in
      let (eh, ehs) = foldl-max p.end_hour (map (λ q. q.end_hour) ps) in
      let (em, ems) = foldl-max p.end_minute (map (λ q. q.end_minute) ps) in
      let days = flat_map (λ (q : TimePattern F). q.days) (p ∷ ps) in
      let on : All (λ q. All (λ d. Any (λ e. e ≡ d) (merge_pattern_group p ps).days) q.days)
          (p ∷ ps) =
        All-imp
          (λ q h.
            All-imp
              (λ d m.
                Any-sorted (λ x y. ltb y x) (λ e. e ≡ d) (distinct days) (Any-distinct d days m))
              q.days h)
          (p ∷ ps) (All-days (p ∷ ps)) in
      let begins : All
          (λ q.
            (merge_pattern_group p ps).start_hour * 60 + (merge_pattern_group p ps).start_minute
            ≤ q.start_hour * 60 + q.start_minute)
          ps =
        All-and (λ q a b. omega (arith, a, b)) ps
          (All-of_map (λ h. foldl min p.start_hour (map (λ q. q.start_hour) ps) ≤ h)
            (λ q. q.start_hour) ps shs)
          (All-of_map (λ h. foldl min p.start_minute (map (λ q. q.start_minute) ps) ≤ h)
            (λ q. q.start_minute) ps sms) in
      let stops : All
          (λ q.
            q.end_hour * 60 + q.end_minute
            ≤ (merge_pattern_group p ps).end_hour * 60 + (merge_pattern_group p ps).end_minute)
          ps =
        All-and (λ q a b. omega (arith, a, b)) ps
          (All-of_map (λ h. h ≤ foldl max p.end_hour (map (λ q. q.end_hour) ps)) (λ q. q.end_hour)
            ps ehs)
          (All-of_map (λ h. h ≤ foldl max p.end_minute (map (λ q. q.end_minute) ps))
            (λ q. q.end_minute) ps ems) in
      (
        record { starts = omega (arith, sh, sm); ends = omega (arith, eh, em); on_days = on.0 },
        Spans-each (merge_pattern_group p ps) ps begins stops on.1,
      )

  pub merged-Spans :
      (p : TimePattern F) (ps : List (TimePattern F)) → All (Spans (merged p ps)) (p ∷ ps)
  unfolding merged
  merged-Spans p [] = (Spans-refl p, tt)
  merged-Spans p (q ∷ qs) = merge_pattern_group-Spans p (q ∷ qs)
