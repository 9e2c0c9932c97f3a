-- ===== src/Tests/Scheduler.antt =====
-- The scheduler on a trigger of the post-processor and one of lower priority, on a Monday morning.
use mathlib.Core.Path.{subst}
use smart_hpa.Prelude.{
  ℕ, zero, suc, ◌+◌, ◌*◌, ◌/◌, ◌%◌, ◌-◌, ◌<◌, ◌≡◌, refl, ◌↔◌, ◌⊎◌, inl, inr, true, String, List, [],
  ◌∷◌, map, Option, none, some, ok, All, Any, lt_or_le, if◌then◌else◌, arith,
}
use smart_hpa.Prelude.Int.{pos, ◌≤ℤ◌, ◌<ℤ◌, max_ℤ, ◌+ℤ◌}
use smart_hpa.Prelude.Text.{str_eq}
use smart_hpa.Json.{Json, get}
use smart_hpa.Clock.{monday_morning, minutes}
use smart_hpa.V2.Config.{peak, weekday, model_config, to_dict, PatternResult, TriggerConfig}
use smart_hpa.V2.Naming.{hour_text}
use smart_hpa.V2.Postprocessor.{pattern_to_trigger, to_smarthpa_spec}
use smart_hpa.V2.Postprocessor.Window.{IsWindow}
use smart_hpa.Scheduler.{
  Trigger, Times, clock, within, get_priority, is_time_within_window, is_within_time_window,
  get_cron_tab,
}
use smart_hpa.Scheduler.Context.{
  Hpa, Context, answered, on_start, on_end, schedule_cron_jobs, apply_initial_config, execute,
}
use smart_hpa.Scheduler.Decode.{SmartHpaSpec, decode_trigger, decode_spec, found, process_smart_hpa}
use smart_hpa.Scheduler.ReadBack.{read_back}
use smart_hpa.Scheduler.Windows.{is_time_within_window_lem}
use smart_hpa.Scheduler.Agreement.{IsTimes, IsPlainDay, IsOpen, pattern_to_trigger-IsOpen}
use smart_hpa.Scheduler.Cron.{cron_line, pattern_to_trigger-cron_line}
use smart_hpa.Scheduler.Spec.{to_smarthpa_spec-unscheduled}
use smart_hpa.Scheduler.Rivals.{IsRival}
use smart_hpa.Scheduler.Top.{hpa_after, IsTopRival, on_start_lem, on_end_lem}
use smart_hpa.Scheduler.Kept.{IsConsistent}
use smart_hpa.Scheduler.Steps.{Reach, here, next, executed, started, Reach-IsConsistent}
use smart_hpa.Scheduler.Refresh.{
  refreshes, no_run, one_run, Midnights, no_night, one_night, power_of_two, Midnights-refreshes,
}
use smart_hpa.Tests.Sample.{hundredths, config, pattern, trigger}

abbrev below : ℕ → List ℕ
below zero = []
below (suc n) = n ∷ below n

All-below : (P : ℕ → Type 0) (n : ℕ) → All P (below n) → (h : ℕ) → h < n → P h
All-below P zero a h l = absurd (omega arith)
All-below P (suc n) a h l = elim (lt_or_le h n) [
  | inl less ↦ All-below P n a.1 h less
  | inr more ↦ subst P (let same : n ≡ h = omega arith in same) a.0
]

-- A time is parsed by search among the full hours.
abbrev find_hour : List ℕ → String → Option (ℕ × ℕ × ℕ)
find_hour [] text = none
find_hour (h ∷ hs) text =
    let rest = find_hour hs text in if str_eq (hour_text h) text then some (h, 0, 0) else rest

abbrev date_at : (ℕ → ℕ) → ℕ → ℕ × ℕ × ℕ → ℕ
date_at location now t =
    location now / 86_400_000_000 * 86_400_000_000 + t.0 * 3_600_000_000 + t.1 * 60_000_000

abbrev pub times : Times
times = record {
  load_location = λ name. none;
  parse_time = find_hour (below 24);
  date = date_at;
  parse_date = λ text. none;
}

times-IsTimes : IsTimes times
unfolding hour_text
times-IsTimes = record {
  parse_law =
      All-below (λ h. find_hour (below 24) (hour_text h) ≡ some (h, 0, 0)) 24
        (
          refl,
          (
            refl,
            (
              refl,
              (
                refl,
                (
                  refl,
                  (
                    refl,
                    (
                      refl,
                      (
                        refl,
                        (
                          refl,
                          (
                            refl,
                            (
                              refl,
                              (
                                refl,
                                (
                                  refl,
                                  (
                                    refl,
                                    (
                                      refl,
                                      (
                                        refl,
                                        (
                                          refl,
                                          (
                                            refl,
                                            (refl, (refl, (refl, (refl, (refl, (refl, tt)))))),
                                          ),
                                        ),
                                      ),
                                    ),
                                  ),
                                ),
                              ),
                            ),
                          ),
                        ),
                      ),
                    ),
                  ),
                ),
              ),
            ),
          ),
        );
}

plain_day : (now : ℕ) → IsPlainDay times (clock times "UTC") now
plain_day now h l = (omega arith, omega arith)

abbrev busy : PatternResult ℕ
busy = pattern peak (9 ∷ 10 ∷ []) 250 600

abbrev busy_trigger : TriggerConfig ℕ
busy_trigger = trigger "custom-late-morning-peak" peak 100 "09:00:00" "11:00:00" 2 9

busy_runs : pattern_to_trigger config "UTC" busy ≡ ok busy_trigger
unfolding pattern_to_trigger max_ℤ ◌+ℤ◌ model_config
busy_runs = refl

abbrev high : Trigger
high = read_back busy_trigger

abbrev low : Trigger
low = read_back (trigger "custom-weekday" weekday 90 "09:00:00" "17:00:00" 3 5)

high_is_active : is_within_time_window times monday_morning high ≡ some within
unfolding is_within_time_window hour_text
high_is_active = refl

pattern_to_trigger-IsOpen_example :
    (start stop : ℕ) × IsWindow (9 ∷ 10 ∷ []) start stop
    × (decode_trigger (to_dict busy_trigger) ≡ some (read_back busy_trigger))
    × ((now : ℕ)
        → IsPlainDay times (clock times "UTC") now
        → (is_within_time_window times now (read_back busy_trigger) ≡ some within)
          ↔ IsOpen (0 ∷ 1 ∷ []) start stop (clock times "UTC" now))
pattern_to_trigger-IsOpen_example =
    pattern_to_trigger-IsOpen times times-IsTimes config "UTC" busy busy_trigger busy_runs
      (omega arith) (omega arith) (omega arith) (omega arith) (omega arith)

pattern_to_trigger-cron_line_example :
    (start stop : ℕ) × IsWindow (9 ∷ 10 ∷ []) start stop
    × (get_cron_tab times monday_morning (read_back busy_trigger) "09:00:00"
        ≡ some (cron_line start (0 ∷ 1 ∷ [])))
    × (get_cron_tab times monday_morning (read_back busy_trigger) "11:00:00"
        ≡ some (cron_line stop (0 ∷ 1 ∷ [])))
pattern_to_trigger-cron_line_example =
    pattern_to_trigger-cron_line times times-IsTimes config "UTC" busy busy_trigger busy_runs
      (omega arith) (omega arith) (omega arith) (omega arith) monday_morning
      (plain_day monday_morning)

-- 05:00 in the window from 22:00 to 06:00.
is_time_within_window_lem_example :
    (is_time_within_window 300 1320 360 ≡ true)
    ↔ ((300 + 1440 - 1320) % 1440 < (360 + 1440 - 1320) % 1440)
is_time_within_window_lem_example =
    is_time_within_window_lem 300 1320 360 (omega arith) (omega arith) (omega arith)

abbrev scaler : Hpa
scaler = record { min_replicas = some (pos 1); max_replicas = pos 4 }

abbrev context : Context
context = record {
  schedules = low ∷ high ∷ [];
  active_trigger_name = "custom-weekday";
  hpa = some scaler;
  jobs = [];
}

-- The start of the lower trigger changes nothing, and the end of the higher one hands over to it.
starts_and_ends :
    (on_start times monday_morning answered low context ≡ context)
    × ((on_end times monday_morning answered high context).hpa
        ≡ some (record { min_replicas = some (pos 3); max_replicas = pos 5 }))
unfolding on_start on_end hour_text
starts_and_ends = (refl, refl)

on_start_lem_example :
    (Any
        (λ u. IsRival times monday_morning low u × (get_priority low <ℤ get_priority u))
        (low ∷ high ∷ [])
      × (on_start times monday_morning answered low context ≡ context))
    ⊎ (All
          (λ u. IsRival times monday_morning low u → get_priority u ≤ℤ get_priority low)
          (low ∷ high ∷ [])
        × ((on_start times monday_morning answered low context).active_trigger_name ≡ low.name)
        × ((on_start times monday_morning answered low context).hpa
            ≡ hpa_after answered low.start_hpa_config (some scaler)))
on_start_lem_example = on_start_lem times monday_morning answered low context

on_end_lem_example :
    (All (λ u. ¬ IsRival times monday_morning high u) (low ∷ high ∷ [])
      × ((on_end times monday_morning answered high context).active_trigger_name ≡ "")
      × ((on_end times monday_morning answered high context).hpa
          ≡ hpa_after answered high.end_hpa_config (some scaler)))
    ⊎ ((top : Trigger) × IsTopRival times monday_morning high (low ∷ high ∷ []) top
        × (((get_priority high <ℤ get_priority top)
              × (on_end times monday_morning answered high context ≡ context))
            ⊎ ((get_priority top ≤ℤ get_priority high)
                × ((on_end times monday_morning answered high context).active_trigger_name
                    ≡ top.name)
                × ((on_end times monday_morning answered high context).hpa
                    ≡ hpa_after answered top.start_hpa_config (some scaler)))))
on_end_lem_example = on_end_lem times monday_morning answered high context

context-IsConsistent : IsConsistent context
context-IsConsistent = (omega arith, inr (inl refl))

abbrev first : Context
first = execute times monday_morning (λ name. answered) context

abbrev started_first : Context
started_first =
    execute times monday_morning (λ name. answered)
      (on_start times monday_morning answered high context)

started_first-Reach : Reach times context started_first
started_first-Reach =
    next (next here (started context monday_morning answered high (inr (inl refl)))) (
      executed (on_start times monday_morning answered high context) monday_morning
        (λ name. answered))

Reach-IsConsistent_example : IsConsistent started_first
Reach-IsConsistent_example =
    Reach-IsConsistent times context started_first context-IsConsistent started_first-Reach

abbrev second : Context
second = execute times (monday_morning + minutes 870) (λ name. answered) first

first-Midnights : Midnights times 1 first second
unfolding execute schedule_cron_jobs apply_initial_config hour_text
first-Midnights =
    one_night first
      (one_run first (monday_morning + minutes 870) (λ name. answered) (no_run second))
      (no_night second)

Midnights-refreshes_example : refreshes second.jobs ≡ refreshes first.jobs * power_of_two 1
Midnights-refreshes_example = Midnights-refreshes times 1 first second first-Midnights

to_smarthpa_spec-unscheduled_example :
    (j : Json) × (spec : SmartHpaSpec) × (get "spec"
        (to_smarthpa_spec (busy_trigger ∷ []) "smart" "shop" "cart-hpa")
      ≡ some j)
    × (decode_spec j ≡ some spec)
    × (spec.triggers ≡ map read_back (busy_trigger ∷ []))
    × ((generation : ℕ) (old : Option (ℕ × Context))
        → process_smart_hpa times monday_morning
            (λ name. answered)
            (λ reference. some scaler)
            (found generation spec)
            old
          ≡ old)
to_smarthpa_spec-unscheduled_example =
    to_smarthpa_spec-unscheduled times monday_morning (λ name. answered) (λ reference. some scaler)
      (busy_trigger ∷ []) "smart" "shop" "cart-hpa" (omega arith)
