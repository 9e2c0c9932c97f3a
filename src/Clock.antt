-- ===== src/Clock.antt =====
-- Python's naive `datetime` and `timedelta`, as the sample generators of ml use them: a time is the
-- number of microseconds since `datetime.min`, the start of the first of January of year 1, a Monday.
pub mod Ticks
use smart_hpa.Prelude.{
  and_then, ℕ, zero, suc, ◌+◌, ◌-◌, ◌*◌, ◌/◌, ◌%◌, List, [], ◌∷◌, Option, none, some, Result, ok,
  raise, overflow_error, ltb, if◌then◌else◌, ◌≡◌, refl,
}

abbrev pub hour_length : ℕ
hour_length = 3_600_000_000

abbrev pub day_length : ℕ
day_length = 86_400_000_000

-- `timedelta(minutes=n)` and `timedelta(days=n)`
abbrev pub minutes : ℕ → ℕ
minutes n = n * 60_000_000

abbrev pub days : ℕ → ℕ
days n = n * 86_400_000_000

-- The start of the year 10000, which no `datetime` reaches.
abbrev pub time_limit : ℕ
time_limit = 315_537_897_600_000_000

-- `ts.hour`
abbrev pub hour : ℕ → ℕ
hour t = t / 3_600_000_000 % 24

-- `ts.minute`
abbrev pub minute : ℕ → ℕ
minute t = t / 60_000_000 % 60

-- `ts.weekday()`, 0 on a Monday.
abbrev pub weekday : ℕ → ℕ
weekday t = t / 86_400_000_000 % 7

-- `t + delta`
unfoldable pub add_delta : ℕ → ℕ → Result ℕ
add_delta t delta =
    if ltb (t + delta) 315_537_897_600_000_000 then ok (t + delta) else raise overflow_error

-- `t - delta`
unfoldable pub sub_delta : ℕ → ℕ → Result ℕ
sub_delta t delta = if ltb t delta then raise overflow_error else ok (t - delta)

abbrev pub prepend : ℕ → Option (Result (List ℕ)) → Option (Result (List ℕ))
prepend t later = and_then later λ ts. some (ok (t ∷ ts))

-- `while current < end: timestamps.append(current); current += step`, on fuel: `none` if it runs out.
unfoldable pub ticks : ℕ → ℕ → ℕ → ℕ → Option (Result (List ℕ))
unfolding add_delta
ticks zero end step current = none
ticks (suc fuel) end step current =
    let rest = and_then (some (add_delta current step)) (λ next. ticks fuel end step next) in
    if ltb current end then prepend current rest else some (ok [])

-- The 13th of May of 2024, a Monday, at 9:30.
abbrev pub monday_morning : ℕ
monday_morning = 63_851_189_400_000_000

calendar_runs : (hour monday_morning ≡ 9) × (weekday monday_morning ≡ 0)
calendar_runs = (refl, refl)

ticks_runs :
    ticks 4 (monday_morning + minutes 25) (minutes 10) monday_morning
    ≡ some
        (ok (monday_morning ∷ (monday_morning + minutes 10) ∷ (monday_morning + minutes 20) ∷ []))
unfolding ticks add_delta
ticks_runs = refl
