-- ===== src/Scheduler/Context.antt =====
-- internal/scheduler/scheduler.go: the context of one SmartHPA, as a state that each callback changes.
-- The schedules are the values of its map, in the order in which a loop meets them.
use smart_hpa.Prelude.{
  ℕ, Bool, true, false, not, ◌&&◌, ◌||◌, String, List, [], ◌∷◌, ◌++◌, filter, Option, none, some,
  if◌then◌else◌,
}
use smart_hpa.Prelude.Int.{ℤ, pos, ltb_ℤ}
use smart_hpa.Prelude.Sort.{sorted}
use smart_hpa.Prelude.Text.{str_eq}
use smart_hpa.Scheduler.{
  HpaConfig, Trigger, Times, get_priority, TimeWindowState, within, after, has_valid_interval,
  need_recurring, is_within_time_window, get_cron_tab,
}

-- The fields of a HorizontalPodAutoscaler that are changed.
pub record Hpa : Type 0 where
  pub min_replicas : Option ℤ
  pub max_replicas : ℤ

-- An entry of a cron: the trigger whose callback it runs and its table, or the daily refresh.
pub data Job : Type 0 where
  start_job end_job : String → String → Job
  refresh_job : Job

pub record Context : Type 0 where
  pub schedules : List Trigger
  pub active_trigger_name : String
  -- The autoscaler in the cluster, `none` if it is not found.
  pub hpa : Option Hpa
  pub jobs : List Job

-- How the API server takes an update.
pub data Reply : Type 0 where
  answered get_failed update_failed : Reply

abbrev pub set_min : Option ℤ → Hpa → Option Hpa
set_min none hpa = some hpa
set_min (some n) hpa = if ltb_ℤ n (pos 0) then none else some (record hpa { min_replicas = some n })

abbrev pub set_max : Option ℤ → Option Hpa → Option Hpa
set_max _ none = none
set_max none (some hpa) = some hpa
set_max (some n) (some hpa) =
    if ltb_ℤ (pos 0) n then some (record hpa { max_replicas = n }) else none

abbrev pub is_ordered : Hpa → Bool
is_ordered hpa = elim hpa.min_replicas [ some n ↦ not (ltb_ℤ hpa.max_replicas n) | none ↦ true ]

abbrev pub validated : Option Hpa → Option Hpa
validated none = none
validated (some hpa) = if is_ordered hpa then some hpa else none

-- `applyHPAConfig`, `none` for an error.
unfoldable pub apply_hpa_config : Hpa → HpaConfig → Option Hpa
apply_hpa_config hpa config =
    validated (set_max config.max_replicas (set_min config.min_replicas hpa))

abbrev pub written_or : Hpa → Option Hpa → Hpa
written_or old none = old
written_or old (some new) = new

-- `UpdateHPAConfig`, whose errors are logged: the autoscaler after it.
unfoldable pub update_hpa_config : Reply → HpaConfig → Option Hpa → Option Hpa
unfolding apply_hpa_config
update_hpa_config answered config (some hpa) = some (written_or hpa (apply_hpa_config hpa config))
update_hpa_config _ config hpa = hpa

abbrev pub configured : Reply → Option HpaConfig → Context → Context
configured reply none c = c
configured reply (some config) c = record c { hpa = update_hpa_config reply config c.hpa }

abbrev pub set_active_trigger : String → Context → Context
set_active_trigger name c = record c { active_trigger_name = name }

abbrev pub is_within : Option TimeWindowState → Bool
is_within (some within) = true
is_within _ = false

-- `sort.Slice` by falling priority. Equal priorities may come in any order, as the map's values do.
unfoldable pub highest_first : List Trigger → List Trigger
unfolding sorted
highest_first triggers = sorted (λ x y. ltb_ℤ (get_priority x) (get_priority y)) triggers

abbrev pub next_or_end : Reply → Trigger → Context → List Trigger → Context
next_or_end reply trigger c [] = configured reply trigger.end_hpa_config (set_active_trigger "" c)
next_or_end reply trigger c (top ∷ others) =
    if ltb_ℤ (get_priority trigger) (get_priority top)
    then c
    else configured reply top.start_hpa_config (set_active_trigger top.name c)

abbrev pub end_unless_active : Reply → Trigger → Context → List Trigger → Context
end_unless_active reply trigger c [] = configured reply trigger.end_hpa_config c
end_unless_active reply trigger c (top ∷ others) = c

abbrev pub add_jobs : Trigger → Option String → Option String → Context → Context
add_jobs trigger (some start) (some end) c = record c {
  jobs = c.jobs ++ (start_job trigger.name start ∷ end_job trigger.name end ∷ []);
}
add_jobs trigger _ _ c = c

abbrev pub is_processed : String → List String → Bool
is_processed name [] = false
is_processed name (n ∷ names) = str_eq n name || is_processed name names

module _ (times : Times) (now : ℕ) where
  abbrev pub is_active : Trigger → Bool
  is_active trigger = is_within (is_within_time_window times now trigger)

  -- `getActiveSchedulesSortedByPriority`
  unfoldable pub get_active_schedules_sorted_by_priority : String → List Trigger → List Trigger
  unfolding is_within_time_window need_recurring highest_first
  get_active_schedules_sorted_by_priority exclude_name schedules = highest_first (
      filter (λ t. not (str_eq t.name exclude_name) && (is_active t && need_recurring times now t))
        schedules)

  -- `hasHigherPriorityActive`
  unfoldable pub has_higher_priority_active : Trigger → List Trigger → Bool
  unfolding is_within_time_window
  has_higher_priority_active trigger [] = false
  has_higher_priority_active trigger (t ∷ schedules) =
      let rest = has_higher_priority_active trigger schedules in
      if str_eq t.name trigger.name
      then rest
      else if is_active t && ltb_ℤ (get_priority trigger) (get_priority t)
      then true
      else rest

  -- `onStart`
  unfoldable pub on_start : Reply → Trigger → Context → Context
  unfolding has_higher_priority_active update_hpa_config
  on_start reply trigger c =
      if has_higher_priority_active trigger c.schedules
      then c
      else configured reply trigger.start_hpa_config (set_active_trigger trigger.name c)

  -- `onEnd`
  unfoldable pub on_end : Reply → Trigger → Context → Context
  unfolding get_active_schedules_sorted_by_priority update_hpa_config
  on_end reply trigger c =
      next_or_end reply trigger c (get_active_schedules_sorted_by_priority trigger.name c.schedules)

  -- `applyInitialConfig`
  unfoldable pub apply_initial_config : Reply → Trigger → TimeWindowState → Context → Context
  unfolding has_higher_priority_active get_active_schedules_sorted_by_priority update_hpa_config
  apply_initial_config reply trigger within c =
      if has_higher_priority_active trigger c.schedules
      then c
      else configured reply trigger.start_hpa_config (set_active_trigger trigger.name c)
  apply_initial_config reply trigger after c =
      end_unless_active reply trigger c
        (get_active_schedules_sorted_by_priority trigger.name c.schedules)
  apply_initial_config reply trigger _ c = c

  -- `scheduleCronJobs`
  unfoldable pub schedule_cron_jobs : Trigger → Context → Context
  unfolding get_cron_tab
  schedule_cron_jobs trigger c =
      add_jobs trigger (get_cron_tab times now trigger trigger.start_time)
        (get_cron_tab times now trigger trigger.end_time) c

  abbrev pub schedule_in : Reply → Trigger → Context → Option TimeWindowState → Context
  schedule_in reply trigger c none = c
  schedule_in reply trigger c (some state) =
      schedule_cron_jobs trigger (apply_initial_config reply trigger state c)

  -- `Schedule`
  unfoldable pub schedule : Reply → Trigger → Context → Context
  unfolding is_within_time_window
  schedule reply trigger c = schedule_in reply trigger c (is_within_time_window times now trigger)

  -- The loop of `execute` after the names in `processed`.
  unfoldable pub execute_from : (String → Reply) → List String → List Trigger → Context → Context
  unfolding schedule
  execute_from replies processed [] c = c
  execute_from replies processed (t ∷ triggers) c =
      if is_processed t.name processed
      then execute_from replies processed triggers c
      else execute_from replies (t.name ∷ processed) triggers (schedule (replies t.name) t c)

  -- `execute`; `replies` answers the update of a trigger.
  unfoldable pub execute : (String → Reply) → Context → Context
  unfolding execute_from highest_first
  execute replies c =
      let triggers = highest_first (filter (λ t. has_valid_interval t.interval) c.schedules) in
      let done = execute_from replies [] triggers c in
      record done { jobs = done.jobs ++ (refresh_job ∷ []) }
