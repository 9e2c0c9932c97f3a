-- ===== src/Scheduler/Top.antt =====
-- internal/scheduler/scheduler.go: the active trigger of highest priority wins.
use mathlib.Core.Path.{subst}
use smart_hpa.Prelude.{
  All-Any, All-forall, ℕ, ◌≡◌, refl, ◌⊎◌, inl, inr, Bool, true, not, ◌&&◌, List, [], ◌∷◌, filter,
  Option, none, some, All, Any, All-imp, Any-imp, Pairs, Bool-cases, arith,
}
use smart_hpa.Prelude.Int.{◌≤ℤ◌, ◌<ℤ◌, ltb_ℤ}
use smart_hpa.Prelude.Sort.{sorted, All-of_sorted, Any-of_sorted, sorted-Pairs}
use smart_hpa.Prelude.Text.{str_eq}
use smart_hpa.Scheduler.{HpaConfig, Trigger, Times, get_priority, need_recurring}
use smart_hpa.Scheduler.Context.{
  Context, Hpa, Reply, update_hpa_config, configured, set_active_trigger, highest_first, is_active,
  get_active_schedules_sorted_by_priority, on_start, on_end,
}
use smart_hpa.Scheduler.Rivals.{
  ltb_ℤ-above, ltb_ℤ-below, All-of_filter, Any-of_filter, IsRival, has_higher_lem, active-needed,
}

-- The autoscaler after a configuration is applied to it, if there is one.
abbrev pub hpa_after : Reply → Option HpaConfig → Option Hpa → Option Hpa
hpa_after reply none hpa = hpa
hpa_after reply (some config) hpa = update_hpa_config reply config hpa

configured-hpa :
    (reply : Reply) (config : Option HpaConfig) (c : Context)
    → ((configured reply config c).hpa ≡ hpa_after reply config c.hpa)
      × ((configured reply config c).active_trigger_name ≡ c.active_trigger_name)
configured-hpa reply none c = (refl, refl)
configured-hpa reply (some config) c = (refl, refl)

module _ (times : Times) (now : ℕ) where
  -- The first of the active schedules.
  abbrev pub IsTopRival : Trigger → List Trigger → Trigger → Type 0
  IsTopRival t us top =
      Any (λ u. u ≡ top) us
      × IsRival times now t top
      × All (λ u. IsRival times now t u → get_priority u ≤ℤ get_priority top) us

  abbrev is_rival : Trigger → Trigger → Bool
  is_rival t u = not (str_eq u.name t.name) && (is_active times now u && need_recurring times now u)

  IsRival-is_rival : (t u : Trigger) → IsRival times now t u → is_rival t u ≡ true
  IsRival-is_rival t u h = rw (h.0, h.1, active-needed times now u h.1) refl

  is_rival-IsRival : (t u : Trigger) → is_rival t u ≡ true → IsRival times now t u
  is_rival-IsRival t u e = (grind arith, grind arith)

  first_lem :
      (t : Trigger) (us active : List Trigger)
      → ((P : Trigger → Type 0) → All P active → All (λ u. is_rival t u ≡ true → P u) us)
      → ((P : Trigger → Type 0) → Any P active → Any (λ u. (is_rival t u ≡ true) × P u) us)
      → Pairs (λ x y. get_priority y ≤ℤ get_priority x) active
      → ((active ≡ []) × All (λ u. ¬ IsRival times now t u) us)
        ⊎ ((top : Trigger) × (others : List Trigger) × (active ≡ top ∷ others)
            × IsTopRival t us top)
  first_lem t us [] down up order =
      inl (refl, All-imp (λ u k r. k (IsRival-is_rival t u r)) us (down (λ u. ⊥) tt))
  first_lem t us (top ∷ others) down up order =
      let found = up (λ u. u ≡ top) (inl refl) in
      let passed =
        All-Any {P = λ u. u ≡ u} {Q = λ u. (is_rival t u ≡ true) × (u ≡ top)}
          (λ u k h. subst (λ z. is_rival t z ≡ true) h.1 h.0) us (All-forall (λ u. refl) us)
          found in
      inr (
        top,
        others,
        refl,
        (
          Any-imp (λ u h. h.1) us found,
          is_rival-IsRival t top passed,
          All-imp (λ u k r. k (IsRival-is_rival t u r)) us
              (down (λ u. get_priority u ≤ℤ get_priority top) (omega arith, order.0)),
        ),
      )

  pub active_schedules_lem :
      (t : Trigger) (us : List Trigger)
      → ((get_active_schedules_sorted_by_priority times now t.name us ≡ [])
          × All (λ u. ¬ IsRival times now t u) us)
        ⊎ ((top : Trigger) × (others : List Trigger) × (get_active_schedules_sorted_by_priority
                times now t.name us
              ≡ top ∷ others)
            × IsTopRival t us top)
  unfolding get_active_schedules_sorted_by_priority highest_first
  active_schedules_lem t us =
      let kept = filter (is_rival t) us in
      first_lem t us (sorted (λ x y. ltb_ℤ (get_priority x) (get_priority y)) kept)
        (λ P h.
          All-of_filter (is_rival t) P us
            (All-of_sorted (λ x y. ltb_ℤ (get_priority x) (get_priority y)) P kept h))
        (λ P h.
          Any-of_filter (is_rival t) P us
            (Any-of_sorted (λ x y. ltb_ℤ (get_priority x) (get_priority y)) P kept h))
        (sorted-Pairs (λ x y. ltb_ℤ (get_priority x) (get_priority y))
          (λ x y. get_priority y ≤ℤ get_priority x) (λ x y z a b. omega (arith, a, b))
          (λ x y e. let l = ltb_ℤ-above (get_priority x) (get_priority y) e in omega (arith, l))
          (λ x y e. ltb_ℤ-below (get_priority x) (get_priority y) e) kept)

  -- When a trigger starts, either another active trigger has a higher priority, and nothing is changed,
  -- or none has: then it is the active trigger, and its start configuration is applied.
  pub on_start_lem :
      (reply : Reply) (t : Trigger) (c : Context)
      → (Any (λ u. IsRival times now t u × (get_priority t <ℤ get_priority u)) c.schedules
          × (on_start times now reply t c ≡ c))
        ⊎ (All (λ u. IsRival times now t u → get_priority u ≤ℤ get_priority t) c.schedules
            × ((on_start times now reply t c).active_trigger_name ≡ t.name)
            × ((on_start times now reply t c).hpa ≡ hpa_after reply t.start_hpa_config c.hpa))
  unfolding on_start
  on_start_lem reply t c = elim (has_higher_lem times now t c.schedules) [
    | inl h ↦ inl (h.1, rw h.0 refl)
    | inr h ↦
        let (hpa, name) = configured-hpa reply t.start_hpa_config (set_active_trigger t.name c) in
        inr (h.1, rw h.0 name, rw h.0 hpa)
  ]

  -- When a trigger ends, and no other trigger is active, then no trigger is the active one and its end
  -- configuration is applied. Otherwise there is a trigger of highest priority among the other active
  -- ones: if that is higher than the ended one's, nothing is changed, and if not, it becomes the active
  -- trigger and its start configuration is applied.
  pub on_end_lem :
      (reply : Reply) (t : Trigger) (c : Context)
      → (All (λ u. ¬ IsRival times now t u) c.schedules
          × ((on_end times now reply t c).active_trigger_name ≡ "")
          × ((on_end times now reply t c).hpa ≡ hpa_after reply t.end_hpa_config c.hpa))
        ⊎ ((top : Trigger) × IsTopRival t c.schedules top
            × (((get_priority t <ℤ get_priority top) × (on_end times now reply t c ≡ c))
                ⊎ ((get_priority top ≤ℤ get_priority t)
                    × ((on_end times now reply t c).active_trigger_name ≡ top.name)
                    × ((on_end times now reply t c).hpa
                        ≡ hpa_after reply top.start_hpa_config c.hpa))))
  unfolding on_end
  on_end_lem reply t c = elim (active_schedules_lem t c.schedules) [
    | inl h ↦
        let (hpa, name) = configured-hpa reply t.end_hpa_config (set_active_trigger "" c) in
        inl (h.1, rw h.0 name, rw h.0 hpa)
    | inr h ↦
        let (top, others, e, best) = h in
        let (hpa, name) =
          configured-hpa reply top.start_hpa_config (set_active_trigger top.name c) in
        elim (Bool-cases (ltb_ℤ (get_priority t) (get_priority top))) [
          | inl above ↦ inr (
            top,
            best,
            inl (ltb_ℤ-above (get_priority t) (get_priority top) above, rw (e, above) refl),
          )
          | inr below ↦ inr (
            top,
            best,
            inr (
              ltb_ℤ-below (get_priority t) (get_priority top) below,
              rw (e, below) name,
              rw (e, below) hpa,
            ),
          )
        ]
  ]
