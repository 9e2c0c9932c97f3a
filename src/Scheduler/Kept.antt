-- ===== src/Scheduler/Kept.antt =====
-- The callbacks of internal/scheduler/scheduler.go keep a context consistent.
use mathlib.Core.Path.{subst}
use smart_hpa.Prelude.Sort.{All-sorted}
use smart_hpa.Scheduler.Sane.{IsSane, update_hpa_config-IsSane}
use smart_hpa.Prelude.{
  ℕ, ◌≡◌, refl, ap, sym, All-imp, All-filter, ◌⊎◌, inl, inr, Bool, true, false, String, List, [],
  ◌∷◌, filter, Option, none, some, All, Any, Any-imp, Bool-cases, if◌then◌else◌,
}
use smart_hpa.Prelude.Int.{ltb_ℤ}
use smart_hpa.Scheduler.{
  HpaConfig, Trigger, Times, get_priority, TimeWindowState, within, after, before, unknown,
  has_valid_interval, is_within_time_window, get_cron_tab,
}
use smart_hpa.Scheduler.Top.{active_schedules_lem}
use smart_hpa.Scheduler.Context.{
  Context, Reply, configured, set_active_trigger, highest_first,
  get_active_schedules_sorted_by_priority, has_higher_priority_active, on_start, on_end,
  end_unless_active, apply_initial_config, add_jobs, schedule_cron_jobs, schedule_in, schedule,
  is_processed, execute_from, execute,
}

-- The autoscaler is sane, and the active trigger, if there is one, is one of the schedules.
abbrev pub IsConsistent : Context → Type 0
IsConsistent c =
    IsSane c.hpa
    × ((c.active_trigger_name ≡ "") ⊎ Any (λ t. t.name ≡ c.active_trigger_name) c.schedules)

abbrev pub Keeps : Context → Context → Type 0
Keeps c d = IsConsistent d × (d.schedules ≡ c.schedules)

configured-Keeps :
    (reply : Reply) (config : Option HpaConfig) (c d : Context)
    → Keeps c d
    → Keeps c (configured reply config d)
configured-Keeps reply none c d h = h
configured-Keeps reply (some config) c d h =
    ((update_hpa_config-IsSane reply config d.hpa h.0.0, h.0.1), h.1)

All-member : {A : Type 0} (xs : List A) → All (λ x. Any (λ y. y ≡ x) xs) xs
All-member [] = tt
All-member (x ∷ xs) = (inl refl, All-imp (λ y m. inr m) xs (All-member xs))

Any-named : (t : Trigger) (us : List Trigger) → Any (λ u. u ≡ t) us → Any (λ u. u.name ≡ t.name) us
Any-named t us m = Any-imp (λ u e. ap (λ (v : Trigger). v.name) e) us m

module _ (times : Times) (now : ℕ) where
  -- The part that `onStart` and `applyInitialConfig` share.
  took_over-Keeps :
      (b : Bool) (reply : Reply) (config : Option HpaConfig) (t : Trigger) (c : Context)
      → Any (λ u. u ≡ t) c.schedules
      → IsConsistent c
      → Keeps c (if b then c else configured reply config (set_active_trigger t.name c))
  took_over-Keeps true reply config t c m h = (h, refl)
  took_over-Keeps false reply config t c m h =
      configured-Keeps reply config c (set_active_trigger t.name c)
        ((h.0, inr (Any-named t c.schedules m)), refl)

  pub on_start-IsConsistent :
      (reply : Reply) (t : Trigger) (c : Context)
      → Any (λ u. u ≡ t) c.schedules
      → IsConsistent c
      → IsConsistent (on_start times now reply t c)
  unfolding on_start
  on_start-IsConsistent reply t c m h =
      (took_over-Keeps (has_higher_priority_active times now t c.schedules) reply t.start_hpa_config
        t c m h).0

  pub on_end-IsConsistent :
      (reply : Reply) (t : Trigger) (c : Context)
      → IsConsistent c
      → IsConsistent (on_end times now reply t c)
  unfolding on_end
  on_end-IsConsistent reply t c h = elim (active_schedules_lem times now t c.schedules) [
    | inl none_active ↦
        rw none_active.0
          (configured-Keeps reply t.end_hpa_config c (set_active_trigger "" c)
            ((h.0, inl refl), refl)).0
    | inr active ↦
        let (top, others, e, best) = active in
        rw e
          (took_over-Keeps (ltb_ℤ (get_priority t) (get_priority top)) reply top.start_hpa_config
            top c best.0 h).0
  ]

  Keeps-end :
      (reply : Reply) (t : Trigger) (c : Context) (active : List Trigger)
      → Keeps c c
      → Keeps c (end_unless_active reply t c active)
  Keeps-end reply t c (top ∷ others) h = h
  Keeps-end reply t c [] h = configured-Keeps reply t.end_hpa_config c c h

  apply_initial_config-Keeps :
      (reply : Reply) (t : Trigger) (state : TimeWindowState) (c : Context)
      → Any (λ u. u ≡ t) c.schedules
      → IsConsistent c
      → Keeps c (apply_initial_config times now reply t state c)
  unfolding apply_initial_config
  apply_initial_config-Keeps reply t within c m h =
      took_over-Keeps (has_higher_priority_active times now t c.schedules) reply t.start_hpa_config
        t c m h
  apply_initial_config-Keeps reply t after c m h =
      Keeps-end reply t c (get_active_schedules_sorted_by_priority times now t.name c.schedules)
        (h, refl)
  apply_initial_config-Keeps reply t before c m h = (h, refl)
  apply_initial_config-Keeps reply t unknown c m h = (h, refl)

  add_jobs-Keeps :
      (t : Trigger) (start end : Option String) (c d : Context)
      → Keeps c d
      → Keeps c (add_jobs t start end d)
  add_jobs-Keeps t (some start) (some end) c d h = h
  add_jobs-Keeps t (some start) none c d h = h
  add_jobs-Keeps t none end c d h = h

  schedule_in-Keeps :
      (reply : Reply) (t : Trigger) (state : Option TimeWindowState) (c : Context)
      → Any (λ u. u ≡ t) c.schedules
      → IsConsistent c
      → Keeps c (schedule_in times now reply t c state)
  unfolding schedule_cron_jobs
  schedule_in-Keeps reply t none c m h = (h, refl)
  schedule_in-Keeps reply t (some state) c m h =
      add_jobs-Keeps t (get_cron_tab times now t t.start_time) (get_cron_tab times now t t.end_time)
        c (apply_initial_config times now reply t state c)
        (apply_initial_config-Keeps reply t state c m h)

  execute_from-IsConsistent :
      (replies : String → Reply) (processed : List String) (triggers : List Trigger) (c : Context)
      → All (λ t. Any (λ u. u ≡ t) c.schedules) triggers
      → IsConsistent c
      → IsConsistent (execute_from times now replies processed triggers c)
  unfolding execute_from schedule
  execute_from-IsConsistent replies processed [] c m h = h
  execute_from-IsConsistent replies processed (t ∷ triggers) c m h =
      let d = schedule times now (replies t.name) t c in
      let (k, same) =
        schedule_in-Keeps (replies t.name) t (is_within_time_window times now t) c m.0 h in
      elim (Bool-cases (is_processed t.name processed)) [
        | inl e ↦ rw e (execute_from-IsConsistent replies processed triggers c m.1 h)
        | inr e ↦ rw e (
            execute_from-IsConsistent replies (t.name ∷ processed) triggers d
              (subst (λ us. All (λ v. Any (λ u. u ≡ v) us) triggers) (sym same) m.1) k)
      ]

  pub execute-IsConsistent :
      (replies : String → Reply) (c : Context)
      → IsConsistent c
      → IsConsistent (execute times now replies c)
  unfolding execute highest_first
  execute-IsConsistent replies c h =
      let valid = filter (λ t. has_valid_interval t.interval) c.schedules in
      execute_from-IsConsistent replies [] (highest_first valid) c
        (All-sorted (λ x y. ltb_ℤ (get_priority x) (get_priority y))
          (λ t. Any (λ u. u ≡ t) c.schedules) valid
          (All-filter (λ t. Any (λ u. u ≡ t) c.schedules) (λ t. has_valid_interval t.interval)
            c.schedules (All-member c.schedules)))
        h
