-- ===== src/Scheduler/Refresh.antt =====
-- The daily refresh of `execute` in internal/scheduler/scheduler.go, which adds its entry again.
use Prim.Native.Nat.{zero, suc}
use native.Mathlib.Nat.{add-mul, mul-add}
use smart_hpa.Prelude.{
  ℕ, ◌+◌, ◌*◌, ◌≡◌, refl, sym, ap, ◌∙◌, Bool, true, false, inl, inr, String, List, [], ◌∷◌, ◌++◌,
  filter, Option, none, some, Bool-cases, if◌then◌else◌, arith,
}
use smart_hpa.Scheduler.{
  HpaConfig, Trigger, Times, TimeWindowState, within, after, before, unknown, has_valid_interval,
  is_within_time_window, get_cron_tab,
}
use smart_hpa.Scheduler.Context.{
  Job, start_job, end_job, refresh_job, Context, Reply, configured, set_active_trigger,
  highest_first, get_active_schedules_sorted_by_priority, has_higher_priority_active,
  end_unless_active, apply_initial_config, add_jobs, schedule_cron_jobs, schedule_in, schedule,
  is_processed, execute_from, execute,
}

-- The entries for the daily refresh.
abbrev pub refreshes : List Job → ℕ
refreshes [] = 0
refreshes (refresh_job ∷ jobs) = suc (refreshes jobs)
refreshes (start_job name tab ∷ jobs) = refreshes jobs
refreshes (end_job name tab ∷ jobs) = refreshes jobs

-- `n` runs of `execute`, each at its time and with its replies.
pub data Executions (times : Times) : ℕ → Context → Context → Type 0 where
  no_run : (c : Context) → Executions times 0 c c
  one_run :
      {n : ℕ} {d : Context} (c : Context) (now : ℕ) (replies : String → Reply)
      → Executions times n (execute times now replies c) d
      → Executions times (suc n) c d

-- `n` midnights: at each, the cron runs every entry for the refresh that it then has.
pub data Midnights (times : Times) : ℕ → Context → Context → Type 0 where
  no_night : (c : Context) → Midnights times 0 c c
  one_night :
      {n : ℕ} {d e : Context} (c : Context)
      → Executions times (refreshes c.jobs) c d
      → Midnights times n d e
      → Midnights times (suc n) c e

abbrev pub power_of_two : ℕ → ℕ
power_of_two zero = 1
power_of_two (suc n) = 2 * power_of_two n

refreshes-append : (xs ys : List Job) → refreshes (xs ++ ys) ≡ refreshes xs + refreshes ys
refreshes-append [] ys = omega arith
refreshes-append (refresh_job ∷ xs) ys = let later = refreshes-append xs ys in omega (arith, later)
refreshes-append (start_job name tab ∷ xs) ys = refreshes-append xs ys
refreshes-append (end_job name tab ∷ xs) ys = refreshes-append xs ys

configured-jobs :
    (reply : Reply) (config : Option HpaConfig) (c : Context)
    → (configured reply config c).jobs ≡ c.jobs
configured-jobs reply none c = refl
configured-jobs reply (some config) c = refl

took_over-jobs :
    (b : Bool) (reply : Reply) (t : Trigger) (c : Context)
    → (if b then c else configured reply t.start_hpa_config (set_active_trigger t.name c)).jobs
      ≡ c.jobs
took_over-jobs true reply t c = refl
took_over-jobs false reply t c =
    configured-jobs reply t.start_hpa_config (set_active_trigger t.name c)

end_unless_active-jobs :
    (reply : Reply) (t : Trigger) (c : Context) (active : List Trigger)
    → (end_unless_active reply t c active).jobs ≡ c.jobs
end_unless_active-jobs reply t c [] = configured-jobs reply t.end_hpa_config c
end_unless_active-jobs reply t c (top ∷ others) = refl

add_jobs-refreshes :
    (t : Trigger) (start end : Option String) (c : Context)
    → refreshes (add_jobs t start end c).jobs ≡ refreshes c.jobs
add_jobs-refreshes t none end c = refl
add_jobs-refreshes t (some start) none c = refl
add_jobs-refreshes t (some start) (some end) c =
    refreshes-append c.jobs (start_job t.name start ∷ end_job t.name end ∷ []) ∙ omega arith

module _ (times : Times) (now : ℕ) where
  apply_initial_config-jobs :
      (reply : Reply) (t : Trigger) (state : TimeWindowState) (c : Context)
      → (apply_initial_config times now reply t state c).jobs ≡ c.jobs
  unfolding apply_initial_config
  apply_initial_config-jobs reply t within c =
      took_over-jobs (has_higher_priority_active times now t c.schedules) reply t c
  apply_initial_config-jobs reply t after c =
      end_unless_active-jobs reply t c
        (get_active_schedules_sorted_by_priority times now t.name c.schedules)
  apply_initial_config-jobs reply t before c = refl
  apply_initial_config-jobs reply t unknown c = refl

  schedule_in-refreshes :
      (reply : Reply) (t : Trigger) (state : Option TimeWindowState) (c : Context)
      → refreshes (schedule_in times now reply t c state).jobs ≡ refreshes c.jobs
  unfolding schedule_cron_jobs
  schedule_in-refreshes reply t none c = refl
  schedule_in-refreshes reply t (some state) c =
      add_jobs-refreshes t (get_cron_tab times now t t.start_time)
        (get_cron_tab times now t t.end_time) (apply_initial_config times now reply t state c)
      ∙ ap refreshes (apply_initial_config-jobs reply t state c)

  execute_from-refreshes :
      (replies : String → Reply) (processed : List String) (triggers : List Trigger) (c : Context)
      → refreshes (execute_from times now replies processed triggers c).jobs ≡ refreshes c.jobs
  unfolding execute_from schedule
  execute_from-refreshes replies processed [] c = refl
  execute_from-refreshes replies processed (t ∷ triggers) c =
      elim (Bool-cases (is_processed t.name processed)) [
        | inl e ↦ rw e (execute_from-refreshes replies processed triggers c)
        | inr e ↦ rw e (
            execute_from-refreshes replies (t.name ∷ processed) triggers
              (schedule times now (replies t.name) t c)
            ∙ schedule_in-refreshes (replies t.name) t (is_within_time_window times now t) c)
      ]

  execute-refreshes :
      (replies : String → Reply) (c : Context)
      → refreshes (execute times now replies c).jobs ≡ suc (refreshes c.jobs)
  unfolding execute
  execute-refreshes replies c =
      let triggers = highest_first (filter (λ t. has_valid_interval t.interval) c.schedules) in
      let same = execute_from-refreshes replies [] triggers c in
      refreshes-append (execute_from times now replies [] triggers c).jobs (refresh_job ∷ [])
      ∙ omega (arith, same)

Executions-refreshes :
    (times : Times) (n : ℕ) (c d : Context)
    → Executions times n c d
    → refreshes d.jobs ≡ refreshes c.jobs + n
Executions-refreshes times _ _ _ (no_run c) = omega arith
Executions-refreshes times _ _ d (one_run c now replies run) =
    let later = Executions-refreshes times _ (execute times now replies c) d run in
    let once = execute-refreshes times now replies c in omega (arith, later, once)

doubled : (a p : ℕ) → (a + a) * p ≡ a * (2 * p)
doubled a p = add-mul a a p ∙ (sym (mul-add a p p) ∙ ap (λ q. a * q) (omega arith))

-- The entries for the daily refresh double at each midnight, whatever the times of the runs and the
-- replies are.
pub Midnights-refreshes :
    (times : Times) (n : ℕ) (c d : Context)
    → Midnights times n c d
    → refreshes d.jobs ≡ refreshes c.jobs * power_of_two n
Midnights-refreshes times _ _ _ (no_night c) = omega arith
Midnights-refreshes times _ _ e (one_night {n = m} c runs nights) =
    let later = Midnights-refreshes times _ _ e nights in
    let once = Executions-refreshes times _ c _ runs in
    later ∙ (ap (λ k. k * power_of_two m) once ∙ doubled (refreshes c.jobs) (power_of_two m))
