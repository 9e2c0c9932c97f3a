-- ===== src/Scheduler.antt =====
-- The triggers of api/v1alpha1/smarthorizontalpodautoscaler_types.go, and the time windows of
-- internal/scheduler/scheduler.go: the Go side, which reads the triggers that ml writes.
pub mod Context
pub mod Decode
pub mod Windows
pub mod Days
pub mod ReadBack
pub mod Agreement
pub mod Cron
pub mod Spec
pub mod Rivals
pub mod Top
pub mod Sane
pub mod Kept
pub mod Steps
pub mod Refresh
use smart_hpa.Prelude.{
  ℕ, ◌+◌, ◌*◌, ◌%◌, Bool, true, false, not, ◌&&◌, ◌||◌, String, List, [], ◌∷◌, ◌++◌, get_elem?,
  Option, none, some, ltb, leb, if◌then◌else◌,
}
use smart_hpa.Prelude.Int.{ℤ, pos}
use smart_hpa.Prelude.Text.{concat, join, decimal, str_eq}
use smart_hpa.Prelude.Text.Split.{split, trim_space, is_blank}
use smart_hpa.Clock.{hour, minute, weekday}

-- Absent texts are empty, as in Go. The desired replicas of a configuration, which nothing reads, are left
-- out.
pub record Interval : Type 0 where
  pub recurring : String
  pub start_date : String
  pub end_date : String

pub record HpaConfig : Type 0 where
  pub min_replicas : Option ℤ
  pub max_replicas : Option ℤ

pub record Trigger : Type 0 where
  pub name : String
  pub priority : Option ℤ
  pub timezone : String
  pub interval : Option Interval
  pub start_time : String
  pub end_time : String
  pub start_hpa_config : Option HpaConfig
  pub end_hpa_config : Option HpaConfig
  pub suspend : Bool

-- What Go's time package does. An instant is the number of microseconds since year 1 in UTC, and a
-- location gives the clock of a place at an instant, in the same unit.
pub record Times : Type 0 where
  -- `time.LoadLocation(name)`, `none` for an error.
  pub load_location : String → Option (ℕ → ℕ)
  -- `time.Parse("15:04:05", text)`: the hour, the minute and the second.
  pub parse_time : String → Option (ℕ × ℕ × ℕ)
  -- `time.Date(year, month, day, hour, minute, second, 0, location)` for the date that the clock of the
  -- location shows at an instant, and a time: the instant. Where a zone's shift leaves that time out, it
  -- is another time.
  pub date : (ℕ → ℕ) → ℕ → ℕ × ℕ × ℕ → ℕ
  -- `time.Parse(time.DateOnly, text)`
  pub parse_date : String → Option ℕ

-- `WeekdayShort`
abbrev pub weekday_short : List String
weekday_short = "SUN" ∷ "M" ∷ "TU" ∷ "W" ∷ "TH" ∷ "F" ∷ "SAT" ∷ []

abbrev pub day_or_empty : Option String → String
day_or_empty (some name) = name
day_or_empty none = ""

-- `WeekdayShort[int(now.Weekday())]` of a clock: `weekday` begins with Monday, Go with Sunday.
unfoldable pub current_day : ℕ → String
current_day t = day_or_empty (get_elem? weekday_short ((weekday t + 1) % 7))

-- `WeekdayToCron`
abbrev pub weekday_to_cron : String → List String
weekday_to_cron day =
    if str_eq day "SUN"
    then "0" ∷ []
    else if str_eq day "M"
    then "1" ∷ []
    else if str_eq day "TU"
    then "2" ∷ []
    else if str_eq day "W"
    then "3" ∷ []
    else if str_eq day "TH"
    then "4" ∷ []
    else if str_eq day "F"
    then "5" ∷ []
    else if str_eq day "SAT"
    then "6" ∷ []
    else []

-- The loop over the days of `recurring`.
abbrev pub has_day : String → List String → Bool
has_day current [] = false
has_day current (day ∷ days) =
    let rest = has_day current days in if str_eq (trim_space day) current then true else rest

abbrev pub location_or_utc : Option (ℕ → ℕ) → ℕ → ℕ
location_or_utc (some location) = location
location_or_utc none = λ now. now

abbrev pub is_between : ℕ → Option ℕ → Option ℕ → Bool
is_between now (some start) (some end) = ltb start now && ltb now end
is_between now _ _ = false

abbrev pub in_interval : String → ℕ → (String → Option ℕ) → Option Interval → Bool
in_interval current now parse_date none = false
in_interval current now parse_date (some interval) =
    if not (is_blank interval.recurring)
    then has_day current (split b',' interval.recurring)
    else if not (is_blank interval.start_date) && not (is_blank interval.end_date)
    then is_between now (parse_date interval.start_date) (parse_date interval.end_date)
    else false

-- `HasValidInterval`
abbrev pub has_valid_interval : Option Interval → Bool
has_valid_interval none = false
has_valid_interval (some interval) =
    not (is_blank interval.recurring)
    || (not (is_blank interval.start_date) && not (is_blank interval.end_date))

abbrev pub cron_days : List String → List String
cron_days [] = []
cron_days (day ∷ days) = weekday_to_cron (trim_space day) ++ cron_days days

abbrev pub days_or_star : List String → String
days_or_star [] = "*"
days_or_star (day ∷ days) = join "," (day ∷ days)

-- `GetCronWeekdays`
unfoldable pub get_cron_weekdays : Option Interval → String
unfolding split join
get_cron_weekdays none = "*"
get_cron_weekdays (some interval) =
    if is_blank interval.recurring
    then "*"
    else days_or_star (cron_days (split b',' interval.recurring))

-- `getPriority`
abbrev pub get_priority : Trigger → ℤ
get_priority trigger = elim trigger.priority [ some priority ↦ priority | none ↦ pos 0 ]

pub data TimeWindowState : Type 0 where
  unknown before within after : TimeWindowState

-- Of a clock.
abbrev pub to_minutes_since_midnight : ℕ → ℕ
to_minutes_since_midnight t = hour t * 60 + minute t

-- `isTimeWithinWindow`
unfoldable pub is_time_within_window : ℕ → ℕ → ℕ → Bool
is_time_within_window current start end =
    if leb start end
    then leb start current && ltb current end
    else leb start current || ltb current end

-- The end of `isWithinTimeWindow`, after the texts are parsed.
abbrev pub window_state : ℕ → Bool → Option ℕ → Option ℕ → Option TimeWindowState
window_state current needed (some start) (some end) =
    let s = to_minutes_since_midnight start in
    let e = to_minutes_since_midnight end in
    if not needed
    then some unknown
    else if is_time_within_window current s e
    then some within
    else if leb e current
    then some after
    else some before
window_state current needed _ _ = none

module _ (times : Times) where
  open times use {load_location, parse_time, date, parse_date}

  -- `loadTimezone`, and the clock of its location.
  abbrev pub clock : String → ℕ → ℕ
  clock timezone now = location_or_utc (load_location timezone) now

  -- `NeedRecurring`
  unfoldable pub need_recurring : ℕ → Trigger → Bool
  unfolding current_day split
  need_recurring now trigger =
      in_interval (current_day (clock trigger.timezone now)) now parse_date trigger.interval

  abbrev pub today_at : (ℕ → ℕ) → ℕ → Option (ℕ × ℕ × ℕ) → Option ℕ
  today_at location now (some t) = some (location (date location now t))
  today_at location now none = none

  -- `parseTimeString`: what the clock of the location shows then, `none` for an error.
  unfoldable pub parse_time_string : ℕ → Trigger → String → Option ℕ
  parse_time_string now trigger text =
      if is_blank text then none else today_at (clock trigger.timezone) now (parse_time text)

  -- `isWithinTimeWindow`, `none` for an error.
  unfoldable pub is_within_time_window : ℕ → Trigger → Option TimeWindowState
  unfolding need_recurring is_time_within_window parse_time_string
  is_within_time_window now trigger =
      let local = clock trigger.timezone now in
      window_state (to_minutes_since_midnight local) (need_recurring now trigger)
        (parse_time_string now trigger trigger.start_time)
        (parse_time_string now trigger trigger.end_time)

  abbrev pub cron_text : String → Option ℕ → Option String
  cron_text weekdays (some t) =
      some (concat (decimal (minute t) ∷ " " ∷ decimal (hour t) ∷ " * * " ∷ weekdays ∷ []))
  cron_text weekdays none = none

  -- `GetCronTab`
  unfoldable pub get_cron_tab : ℕ → Trigger → String → Option String
  unfolding get_cron_weekdays concat decimal parse_time_string
  get_cron_tab now trigger time =
      cron_text (get_cron_weekdays trigger.interval) (parse_time_string now trigger time)
