-- ===== src/V2/Postprocessor/Total.antt =====
-- `process` raises no exception on patterns whose numbers convert to integers.
use smart_hpa.Prelude.{
  ℕ, suc, zero, ◌≤◌, ◌≢◌, refl, String, List, [], ◌∷◌, All, All-imp, Bool, true, false, ltb, ◌&&◌,
  Result, ok, Returns, Returns-map, ◌>>=◌, traverse-Returns, index, arith, if◌then◌else◌,
}
use smart_hpa.Prelude.Int.{pos, ◌+ℤ◌, max_ℤ}
use smart_hpa.Prelude.Text.{join}
use smart_hpa.Prelude.Sort.{sorted, All-sorted}
use smart_hpa.Float.{Float}
use smart_hpa.V2.Config.{ModelConfig, PatternResult}
use smart_hpa.V2.Data.{ProcessedData}
use smart_hpa.V2.Naming.{day_name, recurring_text}
use smart_hpa.V2.Postprocessor.{
  window, generate_name, replica_range, pattern_to_trigger, by_priority, deduplicate, process,
  is_peak, make_trigger,
}

day_name-Returns : (day : ℕ) → day ≤ 6 → Returns (day_name day)
unfolding day_name
day_name-Returns zero h = (_, refl)
day_name-Returns (suc zero) h = (_, refl)
day_name-Returns (suc (suc zero)) h = (_, refl)
day_name-Returns (suc (suc (suc zero))) h = (_, refl)
day_name-Returns (suc (suc (suc (suc zero)))) h = (_, refl)
day_name-Returns (suc (suc (suc (suc (suc zero))))) h = (_, refl)
day_name-Returns (suc (suc (suc (suc (suc (suc zero)))))) h = (_, refl)
day_name-Returns (suc (suc (suc (suc (suc (suc (suc n))))))) h = absurd (omega arith)

window-Returns : (hours : List ℕ) → hours ≢ [] → Returns (window hours)
unfolding window
window-Returns [] h = absurd (h refl)
window-Returns (x ∷ xs) h = (_, refl)

first-Returns : (hours : List ℕ) → hours ≢ [] → Returns (index hours 0)
first-Returns [] h = absurd (h refl)
first-Returns (x ∷ xs) h = (x, refl)

recurring_text-Returns : (days : List ℕ) → All (λ day. day ≤ 6) days → Returns (recurring_text days)
unfolding recurring_text
recurring_text-Returns days h =
    let ordered = sorted (λ (x y : ℕ). ltb y x) days in
    let (names, e) =
      traverse-Returns day_name ordered
        (All-imp day_name-Returns ordered (All-sorted (λ x y. ltb y x) (λ day. day ≤ 6) days h)) in
    (join "," names, rw e)

if-Returns :
    {A : Type 0} (b : Bool) (m : Result A) (x : A) → Returns m → Returns (if b then m else ok x)
if-Returns true m x h = h
if-Returns false m x h = (x, refl)

module _ {F : Type 0} ⦃f : Float F⦄ (config : ModelConfig F) where
  -- A pattern that names hours and known days, and whose replica numbers are finite.
  pub record IsConvertible (p : PatternResult F) : Type 0 where
    pub hours_active : p.hours ≢ []
    pub days_known : All (λ day. day ≤ 6) p.days
    pub low_returns : Returns (f.int p.min_replicas)
    pub high_returns :
        Returns (f.int (f.mul p.max_replicas (f.add (f.literal 1 0) config.replica_buffer_percent)))
    pub burst_returns : Returns (f.int (f.mul p.max_replicas (f.literal 15 1)))

  generate_name-Returns : (p : PatternResult F) → p.hours ≢ [] → Returns (generate_name p)
  unfolding generate_name
  generate_name-Returns p h = Returns-map (index p.hours 0) _ (first-Returns p.hours h)

  replica_range-Returns : (p : PatternResult F) → IsConvertible p → Returns (replica_range config p)
  unfolding replica_range
  replica_range-Returns p h =
      let (low, le) = h.low_returns in
      let (high, he) = h.high_returns in
      let (top, te) = h.burst_returns in
      let most = max_ℤ (max_ℤ (pos 1) low +ℤ pos 2) high in
      let (burst, be) =
        if-Returns
          (is_peak p.pattern_type && f.lt (f.mul p.avg_replicas (f.literal 12 1)) p.percentile_75)
          (f.int (f.mul p.max_replicas (f.literal 15 1)) >>= λ x. ok (max_ℤ most x)) most
          (max_ℤ most top, rw te) in
      ((max_ℤ (pos 1) low, burst), rw (le, he, be))

  pattern_to_trigger-Returns :
      (timezone : String) (p : PatternResult F)
      → IsConvertible p
      → Returns (pattern_to_trigger config timezone p)
  unfolding pattern_to_trigger
  pattern_to_trigger-Returns timezone p h =
      let (r, re) = replica_range-Returns p h in
      let (w, we) = window-Returns p.hours h.hours_active in
      let (s, se) = recurring_text-Returns p.days h.days_known in
      let (n, ne) = generate_name-Returns p h.hours_active in
      (make_trigger timezone p r w s n, rw (re, we, se, ne))

  -- If each pattern has an active hour, days from 0 to 6 and replica numbers that convert to integers,
  -- `process` returns triggers and raises nothing.
  pub process-Returns :
      (timezone : String) (p : PatternResult F) (ps : List (PatternResult F)) (d : ProcessedData F)
      → All IsConvertible (p ∷ ps)
      → Returns (process config timezone (p ∷ ps) d)
  unfolding process
  process-Returns timezone p ps d h =
      let (all, e) =
        traverse-Returns (pattern_to_trigger config timezone) (p ∷ ps)
          (All-imp (pattern_to_trigger-Returns timezone) (p ∷ ps) h) in
      (deduplicate (by_priority all), rw e)
