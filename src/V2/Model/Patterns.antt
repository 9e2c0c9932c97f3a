-- ===== src/V2/Model/Patterns.antt =====
-- What the patterns of `infer` are: their hours and days, how many cells they rest on, their confidence,
-- and the order in which they come.
use mathlib.Core.Path.{subst}
use smart_hpa.Prelude.{
  sym, ap, All-and, filter_passes, Pairs-filter, Ensures-ok, ℕ, suc, ◌≤◌, ◌<◌, ◌≡◌, true, List,
  ◌++◌, filter, All, All-filter, All-imp, Pairs, Option, none, some, ok, Ensures, Ensures-bind,
  arith, Bool-cases, inl, inr,
}
use smart_hpa.Float.{Float}
use smart_hpa.V2.Config.{
  TriggerType, peak, off_peak, weekend, night, morning, evening, ModelConfig, PatternResult,
}
use smart_hpa.V2.Data.{ProcessedData}
use smart_hpa.V2.Model.{
  detect_weekday_peak, detect_weekday_offpeak, detect_weekday_night, detect_weekend, detect_morning,
  detect_evening, present, is_confident, infer,
}
use smart_hpa.V2.Model.Detectors.{
  stage, IsDetected, Detects, peak_Detects, offpeak_Detects, night_Detects, weekend_Detects,
  morning_Detects, evening_Detects,
}

module _ {F : Type 0} ⦃f : Float F⦄ (config : ModelConfig F) where
  -- A pattern that `infer` returns.
  pub record IsInferred (p : PatternResult F) : Type 0 where
    pub placed : 1 ≤ stage config p.pattern_type
    pub detected_as : IsDetected config p.pattern_type p
    pub confident : f.le config.min_confidence p.confidence ≡ true

  abbrev Staged : List (PatternResult F) → Type 0
  Staged = Pairs (λ p q. stage config p.pattern_type < stage config q.pattern_type)

  abbrev Early : ℕ → List (PatternResult F) → Type 0
  Early n = All (λ p. (n ≤ stage config p.pattern_type) × IsDetected config p.pattern_type p)

  Detects-at :
      (kind : TriggerType) (p : PatternResult F)
      → IsDetected config kind p
      → (stage config p.pattern_type ≡ stage config kind) × IsDetected config p.pattern_type p
  Detects-at kind p d =
      (ap (stage config) d.type_of, subst (λ k. IsDetected config k p) (sym d.type_of) d)

  -- One more detector in front of later ones.
  Staged-cons :
      (kind : TriggerType) (found : Option (PatternResult F)) (ps : List (PatternResult F))
      → Detects config kind found
      → Early (suc (stage config kind)) ps × Staged ps
      → Early (stage config kind) (present found ++ ps) × Staged (present found ++ ps)
  Staged-cons kind none ps d (e, s) = (All-imp (λ p h. (omega arith, h.1)) ps e, s)
  Staged-cons kind (some p) ps d (e, s) =
      let (at, own) = Detects-at kind p d.0 in
      (
        ((omega arith, own), All-imp (λ q h. (omega arith, h.1)) ps e),
        (All-imp (λ q h. omega (arith, h.0)) ps e, s),
      )

  Staged-last :
      (kind : TriggerType) (found : Option (PatternResult F))
      → Detects config kind found
      → Early (stage config kind) (present found) × Staged (present found)
  Staged-last kind none d = (tt, tt)
  Staged-last kind (some p) d =
      let (at, own) = Detects-at kind p d.0 in (((omega arith, own), tt), (tt, tt))

  abbrev IsResult : List (PatternResult F) → Type 0
  IsResult ps = All IsInferred ps × Staged ps

  confident_part :
      (ps : List (PatternResult F))
      → Early 1 ps × Staged ps
      → IsResult (filter (is_confident config) ps)
  confident_part ps h = (
    All-and (λ p e c. record { placed = e.0; detected_as = e.1; confident = c })
        (filter (is_confident config) ps)
        (All-filter (λ p. (1 ≤ stage config p.pattern_type) × IsDetected config p.pattern_type p)
          (is_confident config) ps h.0)
        (filter_passes (is_confident config) ps),
    Pairs-filter (is_confident config)
        (λ p q. stage config p.pattern_type < stage config q.pattern_type) ps h.1,
  )

  infer-Ensures : (d : ProcessedData F) → Ensures IsResult (infer config d)
  unfolding infer
  infer-Ensures d = elim (Bool-cases (f.eq d.global_max (f.literal 0 0))) [
    | inl e ↦ rw e (tt, tt)
    | inr e ↦ rw e (
        Ensures-bind (Detects config peak) IsResult (detect_weekday_peak config d) _
          (peak_Detects config d)
          λ a da.
            Ensures-bind (Detects config off_peak) IsResult (detect_weekday_offpeak d) _
              (offpeak_Detects config d)
              λ b db.
                Ensures-bind (Detects config night) IsResult (detect_weekday_night config d) _
                  (night_Detects config d)
                  λ c dc.
                    Ensures-bind (Detects config weekend) IsResult (detect_weekend config d) _
                      (weekend_Detects config d)
                      λ w dw.
                        Ensures-bind (Detects config morning) IsResult (detect_morning config d) _
                          (morning_Detects config d)
                          λ m dm.
                            Ensures-bind (Detects config evening) IsResult (detect_evening config d)
                              _ (evening_Detects config d)
                              λ v dv.
                                confident_part
                                  (present a
                                    ++ (present b
                                        ++ (present c ++ (present w ++ (present m ++ present v)))))
                                  (Staged-cons peak a _ da (
                                    Staged-cons off_peak b _ db (
                                      Staged-cons night c _ dc (
                                        Staged-cons weekend w _ dw (
                                          Staged-cons morning m _ dm
                                            (Staged-last evening v dv)))))))
  ]

  -- Each pattern that `infer` returns is of a type that one of its six detectors yields, has the hours
  -- and days of that detector, rests on at least one cell and on no more cells than its days and hours
  -- have, and has at least the minimum confidence. The patterns stand in the order of the detectors, so
  -- there is at most one of each type.
  pub infer_lem :
      (d : ProcessedData F) (ps : List (PatternResult F))
      → infer config d ≡ ok ps
      → All IsInferred ps
        × Pairs (λ p q. stage config p.pattern_type < stage config q.pattern_type) ps
  infer_lem d ps e = Ensures-ok IsResult (infer config d) ps (infer-Ensures d) e
