-- ===== src/Scheduler/Sane.antt =====
-- applyHPAConfig of internal/scheduler/scheduler.go keeps the replicas of an autoscaler in order.
use smart_hpa.Prelude.{◌≡◌, inl, inr, true, not, Option, none, some, Bool-cases, arith}
use smart_hpa.Prelude.Int.{ℤ, pos, ◌≤ℤ◌, ltb_ℤ}
use smart_hpa.Scheduler.{HpaConfig}
use smart_hpa.Scheduler.Rivals.{ltb_ℤ-above, ltb_ℤ-below}
use smart_hpa.Scheduler.Context.{
  Hpa, Reply, answered, get_failed, update_failed, set_min, set_max, is_ordered, validated,
  apply_hpa_config, written_or, update_hpa_config,
}

abbrev pub IsBetween : ℤ → Option ℤ → Type 0
IsBetween high none = Unit
IsBetween high (some low) = (pos 0 ≤ℤ low) × (low ≤ℤ high)

-- At least one replica at most, and no more at least than at most.
abbrev pub IsSane : Option Hpa → Type 0
IsSane none = Unit
IsSane (some hpa) = (pos 1 ≤ℤ hpa.max_replicas) × IsBetween hpa.max_replicas hpa.min_replicas

-- The same without the order of the two.
abbrev IsPositive : Option ℤ → Type 0
IsPositive none = Unit
IsPositive (some low) = pos 0 ≤ℤ low

abbrev IsPart : Option Hpa → Type 0
IsPart none = Unit
IsPart (some hpa) = (pos 1 ≤ℤ hpa.max_replicas) × IsPositive hpa.min_replicas

set_min-IsPart : (n : Option ℤ) (hpa : Hpa) → IsPart (some hpa) → IsPart (set_min n hpa)
set_min-IsPart none hpa h = h
set_min-IsPart (some n) hpa h = elim (Bool-cases (ltb_ℤ n (pos 0))) [
  | inl low ↦ rw low tt
  | inr e ↦ rw e (h.0, ltb_ℤ-below n (pos 0) e)
]

set_max-IsPart : (n : Option ℤ) (hpa : Option Hpa) → IsPart hpa → IsPart (set_max n hpa)
set_max-IsPart none none h = tt
set_max-IsPart (some n) none h = tt
set_max-IsPart none (some hpa) h = h
set_max-IsPart (some n) (some hpa) h = elim (Bool-cases (ltb_ℤ (pos 0) n)) [
  | inl e ↦ rw e (omega (arith, ltb_ℤ-above (pos 0) n e), h.1)
  | inr low ↦ rw low tt
]

ordered-IsBetween :
    (high : ℤ) (low : Option ℤ)
    → IsPositive low
    → (elim low [ some n ↦ not (ltb_ℤ high n) | none ↦ true ]) ≡ true
    → IsBetween high low
ordered-IsBetween high none h e = tt
ordered-IsBetween high (some n) h e = (h, ltb_ℤ-below high n (grind arith))

validated-IsSane : (hpa : Option Hpa) → IsPart hpa → IsSane (validated hpa)
validated-IsSane none h = tt
validated-IsSane (some hpa) h = elim (Bool-cases (is_ordered hpa)) [
  | inl e ↦ rw e (h.0, ordered-IsBetween hpa.max_replicas hpa.min_replicas h.1 e)
  | inr e ↦ rw e tt
]

positive : (high : ℤ) (low : Option ℤ) → IsBetween high low → IsPositive low
positive high none h = tt
positive high (some n) h = h.0

apply_hpa_config-IsSane :
    (hpa : Hpa) (config : HpaConfig) → IsSane (some hpa) → IsSane (apply_hpa_config hpa config)
unfolding apply_hpa_config
apply_hpa_config-IsSane hpa config h =
    validated-IsSane (set_max config.max_replicas (set_min config.min_replicas hpa)) (
      set_max-IsPart config.max_replicas (set_min config.min_replicas hpa) (
        set_min-IsPart config.min_replicas hpa
          (h.0, positive hpa.max_replicas hpa.min_replicas h.1)))

written_or-IsSane :
    (old : Hpa) (new : Option Hpa)
    → IsSane (some old)
    → IsSane new
    → IsSane (some (written_or old new))
written_or-IsSane old none h k = h
written_or-IsSane old (some new) h k = k

pub update_hpa_config-IsSane :
    (reply : Reply) (config : HpaConfig) (hpa : Option Hpa)
    → IsSane hpa
    → IsSane (update_hpa_config reply config hpa)
unfolding update_hpa_config
update_hpa_config-IsSane answered config none h = tt
update_hpa_config-IsSane get_failed config none h = tt
update_hpa_config-IsSane update_failed config none h = tt
update_hpa_config-IsSane answered config (some hpa) h =
    written_or-IsSane hpa (apply_hpa_config hpa config) h (apply_hpa_config-IsSane hpa config h)
update_hpa_config-IsSane get_failed config (some hpa) h = h
update_hpa_config-IsSane update_failed config (some hpa) h = h
