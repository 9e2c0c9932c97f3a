-- ===== src/Scheduler/Cron.antt =====
-- The crons of a trigger of ml/v2/postprocessor.py, which GetCronTab of internal/scheduler/scheduler.go
-- makes of its times and days.
use smart_hpa.Prelude.{
  ℕ, ◌+◌, ◌%◌, ◌≡◌, ◌≤◌, ◌<◌, refl, sym, ◌∙◌, String, List, [], ◌∷◌, map, length, some, ok,
  ok-injective, All, ltb, arith,
}
use smart_hpa.Prelude.Sort.{sorted, All-sorted, length-sorted}
use smart_hpa.Prelude.Text.{concat, join, decimal}
use smart_hpa.Prelude.Text.Split.{trim_space}
use mathlib.Core.Path.{subst}
use smart_hpa.Float.{Float}
use smart_hpa.V2.Config.{ModelConfig, PatternResult, TriggerConfig}
use smart_hpa.V2.Naming.{hour_text, recurring_text}
use smart_hpa.V2.Postprocessor.{pattern_to_trigger}
use smart_hpa.V2.Postprocessor.Window.{IsWindow}
use smart_hpa.V2.Postprocessor.Process.{pattern_to_trigger-IsTriggerOf}
use smart_hpa.Scheduler.ReadBack.{read_back}
use smart_hpa.Scheduler.Agreement.{IsTimes, IsPlainDay, parse_hour, window-is, IsWindow-order}
use smart_hpa.Scheduler.{
  Trigger, Times, clock, get_cron_tab, cron_days, days_or_star, weekday_to_cron, get_cron_weekdays,
}
use smart_hpa.Scheduler.Days.{week_cases, short, written, names-traverse}

-- The number of a day in a cron, which counts from Sunday.
abbrev pub cron_day : ℕ → String
cron_day d = decimal ((d + 1) % 7)

cron_day_lem : (d : ℕ) → d < 7 → weekday_to_cron (trim_space (short d)) ≡ cron_day d ∷ []
unfolding decimal
cron_day_lem =
    week_cases (λ d. weekday_to_cron (trim_space (short d)) ≡ cron_day d ∷ []) refl refl refl refl
      refl refl refl

cron_days-map :
    (days : List ℕ) → All (λ d. d < 7) days → cron_days (map short days) ≡ map cron_day days
cron_days-map [] h = refl
cron_days-map (d ∷ ds) h = rw (cron_day_lem d h.0, cron_days-map ds h.1) refl

days_or_star-join : (ss : List String) → 1 ≤ length ss → days_or_star ss ≡ join "," ss
days_or_star-join [] h = absurd (omega arith)
days_or_star-join (s ∷ ss) h = refl

length-names : (days : List ℕ) → length (map cron_day days) ≡ length days
length-names [] = refl
length-names (d ∷ ds) = rw (length-names ds) refl

-- For days of a week, one at least, the text of the days becomes the list of their numbers in a cron, in
-- the order of the week from Monday on.
pub recurring_text-get_cron_weekdays :
    (days : List ℕ) (text : String)
    → All (λ d. d < 7) days
    → 1 ≤ length days
    → recurring_text days ≡ ok text
    → get_cron_weekdays (some (record { recurring = text; start_date = ""; end_date = "" }))
      ≡ join "," (map cron_day (sorted (λ x y. ltb y x) days))
unfolding recurring_text get_cron_weekdays
recurring_text-get_cron_weekdays days text h n e =
    let ds = sorted (λ x y. ltb y x) days in
    let inside : All (λ d. d < 7) ds = All-sorted (λ x y. ltb y x) (λ d. d < 7) days h in
    let size = length-sorted (λ x y. ltb y x) days in
    let (parts, full) = written ds inside (omega (arith, size)) in
    let wrote : ok (join "," (map short ds)) ≡ recurring_text days =
      rw (names-traverse ds inside) refl in
    let same : join "," (map short ds) ≡ text =
      ok-injective (join "," (map short ds)) text (wrote ∙ e) in
    let count = length-names ds in
    rw (sym same, full, parts, cron_days-map ds inside)
      (days_or_star-join (map cron_day ds) (omega (arith, size, count)))

-- The table of a cron that runs at a full hour on some days.
abbrev pub cron_line : ℕ → List ℕ → String
cron_line h days = concat (
    decimal 0
    ∷ " "
    ∷ decimal h
    ∷ " * * "
    ∷ join "," (map cron_day (sorted (λ x y. ltb y x) days))
    ∷ [])

tab_of_hour :
    (times : Times)
    → IsTimes times
    → (now : ℕ) (g : Trigger) (text : String) (days : List ℕ) (h : ℕ) (time : String)
    → time ≡ hour_text h
    → h < 24
    → IsPlainDay times (clock times g.timezone) now
    → g.interval ≡ some (record { recurring = text; start_date = ""; end_date = "" })
    → All (λ d. d < 7) days
    → 1 ≤ length days
    → recurring_text days ≡ ok text
    → get_cron_tab times now g time ≡ some (cron_line h days)
unfolding get_cron_tab
tab_of_hour times law now g text days h time at l plain interval inside n e =
    let weekdays = recurring_text-get_cron_weekdays days text inside n e in
    let (same_hour, full_hour) = plain h l in
    rw (at, parse_hour times law now g h l, interval, weekdays, same_hour, full_hour) refl

-- If Go's times and formats are as documented, for a pattern with hours of a day and days of a week,
-- one of each at least, on a day whose full hours are all there: the crons of the trigger run at the
-- start and at the stop of its window, on the days of the pattern. The start is the pattern's first
-- hour, the stop the hour after its last one or 23, whichever is earlier.
pub pattern_to_trigger-cron_line :
    {F : Type 0} ⦃f : Float F⦄ (times : Times)
    → IsTimes times
    → (config : ModelConfig F) (timezone : String) (p : PatternResult F) (t : TriggerConfig F)
    → pattern_to_trigger config timezone p ≡ ok t
    → All (λ h. h ≤ 23) p.hours
    → 1 ≤ length p.hours
    → All (λ d. d < 7) p.days
    → 1 ≤ length p.days
    → (now : ℕ) → IsPlainDay times (clock times timezone) now
    → (start stop : ℕ) × IsWindow p.hours start stop
      × (get_cron_tab times now (read_back t) t.start_time ≡ some (cron_line start p.days))
      × (get_cron_tab times now (read_back t) t.end_time ≡ some (cron_line stop p.days))
pattern_to_trigger-cron_line times law config timezone p t e hours some_hour days some_day now
      plain =
    let made = pattern_to_trigger-IsTriggerOf config timezone p t e in
    let w = window-is p.hours made.start made.stop hours some_hour made.window_of in
    let order = IsWindow-order p.hours made.start made.stop w in
    let late = w.stops in
    let plain' = subst (λ z. IsPlainDay times (clock times z) now) (sym made.timezone_of) plain in
    (
      made.start,
      made.stop,
      w,
      tab_of_hour times law now (read_back t) t.recurring p.days made.start t.start_time
          made.start_of (omega (arith, order, late)) plain' refl days some_day made.recurring_of,
      tab_of_hour times law now (read_back t) t.recurring p.days made.stop t.end_time made.stop_of
          (omega (arith, late)) plain' refl days some_day made.recurring_of,
    )
