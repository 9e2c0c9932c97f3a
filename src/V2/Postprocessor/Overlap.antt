-- ===== src/V2/Postprocessor/Overlap.antt =====
-- A consequence of the two rules together: a pattern across midnight gets the window from 0 to 23, and
-- of two triggers with one window `_deduplicate` keeps the one of higher priority.
use smart_hpa.Prelude.{
  ℕ, ◌≤◌, ◌≡◌, ◌≢◌, sym, ap, ◌∙◌, inl, inr, List, [], ◌∷◌, String, All, Any, Any-imp, Pairs,
  All-imp, All-and, All-Any, ok, Each-All, arith,
}
use mathlib.Core.Path.{subst}
use smart_hpa.Float.{Float}
use smart_hpa.V2.Config.{ModelConfig, PatternResult, TriggerConfig, night, off_peak}
use smart_hpa.V2.Data.{ProcessedData}
use smart_hpa.V2.Postprocessor.{window, window_key, priority_order, process, by_priority}
use smart_hpa.V2.Postprocessor.Dedup.{All-deduplicate}
use smart_hpa.V2.Postprocessor.Process.{
  IsTriggerOf, pattern_to_trigger-IsTriggerOf, Makes, process_inv, process_order, All-by_priority,
}

module _ {F : Type 0} where
  -- Where windows are distinct, the triggers with the window `k` are as high as one of them.
  high_at :
      (k : List String) (n : ℕ) (ts : List (TriggerConfig F))
      → Pairs (λ t u. window_key u ≢ window_key t) ts
      → Any (λ t. (k ≡ window_key t) × (n ≤ t.priority)) ts
      → All (λ t. k ≡ window_key t → n ≤ t.priority) ts
  high_at k n [] d a = tt
  high_at k n (t ∷ ts) d (inl (kt, le)) =
      (λ e. le, All-imp (λ u ne e. absurd (ne (sym e ∙ kt))) ts d.0)
  high_at k n (t ∷ ts) d (inr m) =
      (λ e. absurd (All-Any (λ u ne q. ne (sym q.0 ∙ e)) ts d.0 m), high_at k n ts d.1 m)

module _ {F : Type 0} ⦃f : Float F⦄ (config : ModelConfig F) (timezone : String) where
  -- The whole day up to 23, on the days `ds`.
  abbrev pub SpansDay : List ℕ → PatternResult F → Type 0
  SpansDay ds p = (window p.hours ≡ ok (0, 23)) × (p.days ≡ ds)

  whole_day_key :
      (ds : List ℕ) (p q : PatternResult F) (t u : TriggerConfig F)
      → IsTriggerOf config timezone p t
      → IsTriggerOf config timezone q u
      → SpansDay ds p
      → SpansDay ds q
      → window_key t ≡ window_key u
  unfolding window_key
  whole_day_key ds p q t u a b sp sq = cc (
    a.window_of, b.window_of, a.start_of, b.start_of, a.stop_of, b.stop_of, a.recurring_of,
    b.recurring_of, sp.0, sq.0, sp.1, sq.1,
  )

  night_priority :
      (q : PatternResult F) (t : TriggerConfig F)
      → IsTriggerOf config timezone q t
      → q.pattern_type ≡ night
      → t.priority ≡ 50
  unfolding priority_order
  night_priority q t a e = a.priority_of ∙ ap priority_order e

  off_peak_priority :
      (q : PatternResult F) (t : TriggerConfig F)
      → IsTriggerOf config timezone q t
      → q.pattern_type ≡ off_peak
      → t.priority ≡ 40
  unfolding priority_order
  off_peak_priority q t a e = a.priority_of ∙ ap priority_order e

  -- A returned off-peak trigger has the window and days of the night trigger `n`, and priority 40.
  beside :
      (ds : List ℕ) (q : PatternResult F) (n : TriggerConfig F)
      → IsTriggerOf config timezone q n
      → SpansDay ds q
      → (a : PatternResult F) (t : TriggerConfig F) → (a.pattern_type ≡ off_peak → SpansDay ds a)
      → Makes config timezone a t
      → t.trigger_type ≡ off_peak
      → (window_key n ≡ window_key t) × (t.priority ≡ 40)
  beside ds q n made span a t off makes kind =
      let at = pattern_to_trigger-IsTriggerOf config timezone a t makes in
      let same = sym at.kind ∙ kind in
      (whole_day_key ds q a n t made at span (off same), off_peak_priority a t at same)

  -- If the patterns hold a night pattern whose window is the whole day from 0 to 23, and every off-peak
  -- pattern has that window and the same days, then no trigger that `process` returns is an off-peak one.
  pub night_hides_off_peak :
      (ds : List ℕ) (p : PatternResult F) (ps : List (PatternResult F)) (d : ProcessedData F)
      (ts : List (TriggerConfig F))
      → process config timezone (p ∷ ps) d ≡ ok ts
      → Any (λ q. (q.pattern_type ≡ night) × SpansDay ds q) (p ∷ ps)
      → All (λ q. q.pattern_type ≡ off_peak → SpansDay ds q) (p ∷ ps)
      → All (λ t. t.trigger_type ≢ off_peak) ts
  night_hides_off_peak ds p ps d ts e nights offs =
      let (ranked, distinct, covered) = process_order config timezone p ps d ts e in
      let (all, each, same) = process_inv config timezone p ps d ts e in
      All-Any
        (λ q c night_q.
          let (n, makes, kept) = c in
          let made = pattern_to_trigger-IsTriggerOf config timezone q n makes in
          let high = high_at (window_key n) 50 ts distinct (
            Any-imp (λ t k. (sym k.0, omega (arith, night_priority q n made night_q.0, k.1))) ts
              kept) in
          let low =
            subst
              (All (λ t.
                t.trigger_type ≡ off_peak → (window_key n ≡ window_key t) × (t.priority ≡ 40)))
              same
              (All-deduplicate
                (λ t. t.trigger_type ≡ off_peak → (window_key n ≡ window_key t) × (t.priority ≡ 40))
                (by_priority all)
                (All-by_priority
                  (λ t.
                    t.trigger_type ≡ off_peak → (window_key n ≡ window_key t) × (t.priority ≡ 40))
                  all
                  (Each-All {R = Makes config timezone} (beside ds q n made night_q.1) (p ∷ ps) all
                    offs each))) in
          All-and (λ t h l kind. omega (arith, h (l kind).0, (l kind).1)) ts high low)
        (p ∷ ps) covered nights
