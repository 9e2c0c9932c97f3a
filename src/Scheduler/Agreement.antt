-- ===== src/Scheduler/Agreement.antt =====
-- What ml/v2/postprocessor.py writes and what internal/scheduler/scheduler.go makes of it: the windows in
-- which the scheduler holds a trigger to be active are those of the pattern.
use mathlib.Core.Path.{subst}
use smart_hpa.V2.Postprocessor.Replicas.{pattern_to_trigger-IsRunnable}
use smart_hpa.V2.Config.{TriggerType}
use smart_hpa.V2.Postprocessor.{priority_order}
use smart_hpa.Prelude.{
  ok-injective, ℕ, ◌+◌, ◌*◌, ◌≤◌, ◌<◌, ◌≡◌, refl, sym, ◌∙◌, ◌↔◌, ◌⊎◌, Bool, true, false, String,
  List, [], ◌∷◌, length, some, ok, All, Any, All-Any, arith,
}
use smart_hpa.Prelude.Int.{pos, ◌≤ℤ◌}
use smart_hpa.Prelude.Text.{two_digits}
use smart_hpa.Prelude.Text.Split.{split, is_blank, is_blank-append}
use smart_hpa.Float.{Float}
use smart_hpa.Clock.{hour, minute, weekday}
use smart_hpa.V2.Config.{ModelConfig, PatternResult, TriggerConfig, to_dict}
use smart_hpa.V2.Naming.{hour_text}
use smart_hpa.V2.Postprocessor.{pattern_to_trigger, window}
use smart_hpa.V2.Postprocessor.Window.{IsWindow, window-IsWindow}
use smart_hpa.V2.Postprocessor.Process.{pattern_to_trigger-IsTriggerOf}
use smart_hpa.Scheduler.{
  Trigger, Times, clock, within, has_day, window_state, current_day, need_recurring,
  parse_time_string, is_time_within_window, is_within_time_window,
}
use smart_hpa.Scheduler.Decode.{int64_limit, decode_trigger}
use smart_hpa.Scheduler.Days.{short, recurring_text_lem}
use smart_hpa.Scheduler.ReadBack.{read_back, decode_trigger-to_dict}

-- What is documented of `time.Parse`, for a full hour.
pub record IsTimes (times : Times) : Type 0 where
  pub parse_law : (h : ℕ) → h < 24 → times.parse_time (hour_text h) ≡ some (h, 0, 0)

-- On the day that the clock of the location shows now, each full hour has its time.
abbrev pub IsPlainDay : Times → (ℕ → ℕ) → ℕ → Type 0
IsPlainDay times location now =
    (h : ℕ)
    → h < 24
    → (hour (location (times.date location now (h, 0, 0))) ≡ h)
      × (minute (location (times.date location now (h, 0, 0))) ≡ 0)

hour_text-nonempty : (h : ℕ) → is_blank (hour_text h) ≡ false
unfolding hour_text
hour_text-nonempty h = is_blank-append (two_digits h) ":00:00" refl

pub parse_hour :
    (times : Times) (law : IsTimes times) (now : ℕ) (g : Trigger) (h : ℕ)
    → h < 24
    → parse_time_string times now g (hour_text h)
      ≡ some (clock times g.timezone (times.date (clock times g.timezone) now (h, 0, 0)))
unfolding parse_time_string
parse_hour times law now g h l = rw (hour_text-nonempty h, law.parse_law h l) refl

window_state_iff :
    (current start stop a b : ℕ) (needed : Bool)
    → (hour a ≡ start) × (minute a ≡ 0)
    → (hour b ≡ stop) × (minute b ≡ 0)
    → start ≤ stop
    → (window_state current needed (some a) (some b) ≡ some within)
      ↔ (needed ≡ true) × (start * 60 ≤ current) × (current < stop * 60)
unfolding is_time_within_window
window_state_iff current start stop a b needed s e l = ground arith

pub IsWindow-order : (hours : List ℕ) (start stop : ℕ) → IsWindow hours start stop → start ≤ stop
IsWindow-order hours start stop w =
    All-Any {P = λ h. (start ≤ h) × ((h < stop) ⊎ (h ≡ 23) × (stop ≡ 23))} (λ h l e. grind arith)
      hours w.inside w.starts

pub window-is :
    (hours : List ℕ) (start stop : ℕ)
    → All (λ h. h ≤ 23) hours
    → 1 ≤ length hours
    → window hours ≡ ok (start, stop)
    → IsWindow hours start stop
window-is [] start stop a n e = absurd (omega arith)
window-is (x ∷ xs) start stop a n e =
    let (low, high, e', w) = window-IsWindow x xs a in
    subst (λ (r : ℕ × ℕ). IsWindow (x ∷ xs) r.0 r.1)
      (ok-injective (low, high) (start, stop) (sym e' ∙ e)) w

priority_below : (kind : TriggerType) → priority_order kind < int64_limit
unfolding priority_order
priority_below kind = ground arith

-- The days and the hours of the windows of a trigger.
abbrev pub IsOpen : List ℕ → ℕ → ℕ → ℕ → Type 0
IsOpen days start stop local =
    Any (λ d. d ≡ weekday local) days × (start ≤ hour local) × (hour local < stop)

need_recurring-eq :
    (times : Times) (now : ℕ) (g : Trigger) (text : String)
    → g.interval ≡ some (record { recurring = text; start_date = ""; end_date = "" })
    → is_blank text ≡ false
    → need_recurring times now g
      ≡ has_day (short (weekday (clock times g.timezone now))) (split b',' text)
unfolding need_recurring current_day
need_recurring-eq times now g text e full = rw (e, full) refl

is_within-IsOpen :
    (times : Times)
    → IsTimes times
    → (now : ℕ) (g : Trigger) (text : String) (days : List ℕ) (start stop : ℕ)
    → g.interval ≡ some (record { recurring = text; start_date = ""; end_date = "" })
    → g.start_time ≡ hour_text start
    → g.end_time ≡ hour_text stop
    → start ≤ stop
    → stop ≤ 23
    → IsPlainDay times (clock times g.timezone) now
    → is_blank text ≡ false
    → (has_day (short (weekday (clock times g.timezone now))) (split b',' text) ≡ true)
      ↔ Any (λ d. d ≡ weekday (clock times g.timezone now)) days
    → (is_within_time_window times now g ≡ some within)
      ↔ IsOpen days start stop (clock times g.timezone now)
unfolding is_within_time_window
is_within-IsOpen times law now g text days start stop interval first last order late plain full
      today =
    let local = clock times g.timezone now in
    let need = need_recurring-eq times now g text interval full in
    let iff =
      window_state_iff (hour local * 60 + minute local) start stop
        (clock times g.timezone (times.date (clock times g.timezone) now (start, 0, 0)))
        (clock times g.timezone (times.date (clock times g.timezone) now (stop, 0, 0)))
        (has_day (short (weekday local)) (split b',' text)) (plain start (omega (arith, order)))
        (plain stop (omega arith)) order in
    rw
      (
        first,
        last,
        need,
        parse_hour times law now g start (omega (arith, order)),
        parse_hour times law now g stop (omega arith),
      )
      (
        (λ e. let (a, b, c) = iff.0 e in (today.0 a, omega (arith, b), omega (arith, c))),
        (λ h. iff.1 (today.1 h.0, omega (arith, h.1), omega (arith, h.2))),
      )

-- If Go's times and formats are as documented, for a pattern with hours of a day and days of a week, one
-- of each at least, whose trigger has replicas of 32 bits: the scheduler reads the trigger back from its
-- dictionary. On a day whose full hours are all there, it holds the trigger to be active if and only if
-- the day is one of the pattern and the time lies in the pattern's window, from the full hour of its
-- start to before the full hour of its stop. The start is the pattern's first hour, the stop the hour
-- after its last one or 23, whichever is earlier.
pub pattern_to_trigger-IsOpen :
    {F : Type 0} ⦃f : Float F⦄ (times : Times)
    → IsTimes times
    → (config : ModelConfig F) (timezone : String) (p : PatternResult F) (t : TriggerConfig F)
    → pattern_to_trigger config timezone p ≡ ok t
    → All (λ h. h ≤ 23) p.hours
    → 1 ≤ length p.hours
    → All (λ d. d < 7) p.days
    → 1 ≤ length p.days
    → t.max_replicas ≤ℤ pos 2_147_483_647
    → (start stop : ℕ) × IsWindow p.hours start stop
      × (decode_trigger (to_dict t) ≡ some (read_back t))
      × ((now : ℕ)
          → IsPlainDay times (clock times timezone) now
          → (is_within_time_window times now (read_back t) ≡ some within)
            ↔ IsOpen p.days start stop (clock times timezone now))
pattern_to_trigger-IsOpen times law config timezone p t e hours some_hour days some_day small =
    let made = pattern_to_trigger-IsTriggerOf config timezone p t e in
    let (one, more) = pattern_to_trigger-IsRunnable config timezone p t e in
    let w = window-is p.hours made.start made.stop hours some_hour made.window_of in
    let order = IsWindow-order p.hours made.start made.stop w in
    let below = priority_below p.pattern_type in
    let read =
      decode_trigger-to_dict t (rw made.priority_of below) (omega (arith, one)) more small in
    (
      made.start,
      made.stop,
      w,
      read,
      subst
          (λ z.
            (now : ℕ)
            → IsPlainDay times (clock times z) now
            → (is_within_time_window times now (read_back t) ≡ some within)
              ↔ IsOpen p.days made.start made.stop (clock times z now))
          made.timezone_of
          (λ now plain.
            let (text, wrote, full, today) =
              recurring_text_lem p.days (weekday (clock times t.timezone now)) days some_day
                (omega arith) in
            let same = ok-injective text t.recurring (sym wrote ∙ made.recurring_of) in
            is_within-IsOpen times law now (read_back t) text p.days made.start made.stop
              (rw same refl) made.start_of made.stop_of order w.stops plain full today),
    )
