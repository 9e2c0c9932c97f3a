-- ===== src/Scheduler/Spec.antt =====
-- The specification that ml/v2/postprocessor.py writes, as internal/scheduler/scheduler.go takes it.
use smart_hpa.Prelude.{ℕ, ◌≡◌, ◌<◌, refl, String, List, [], ◌∷◌, map, Option, none, some, All}
use smart_hpa.Prelude.Int.{pos, ◌≤ℤ◌}
use smart_hpa.Json.{Json, str, object, array, items, get}
use smart_hpa.V2.Config.{TriggerConfig, to_dict}
use smart_hpa.V2.Postprocessor.{to_smarthpa_spec}
use smart_hpa.Scheduler.{Times}
use smart_hpa.Scheduler.Context.{Hpa, Context, Reply}
use smart_hpa.Scheduler.Decode.{
  int64_limit, HpaObjectReference, SmartHpaSpec, decode_triggers, decode_spec, found,
  process_smart_hpa,
}
use smart_hpa.Scheduler.ReadBack.{read_back, decode_trigger-to_dict}

-- The numbers of the trigger fit in the scheduler's.
abbrev pub IsReadable : {F : Type 0} → TriggerConfig F → Type 0
IsReadable t =
    (t.priority < int64_limit)
    × (pos 0 ≤ℤ t.min_replicas)
    × (t.min_replicas ≤ℤ t.max_replicas)
    × (t.max_replicas ≤ℤ pos 2_147_483_647)

decode_triggers-to_dict :
    {F : Type 0} (ts : List (TriggerConfig F))
    → All IsReadable ts
    → decode_triggers (items (map to_dict ts)) ≡ some (map read_back ts)
unfolding decode_triggers
decode_triggers-to_dict [] h = refl
decode_triggers-to_dict (t ∷ ts) h =
    let (a, b, c, d) = h.0 in
    rw (decode_trigger-to_dict t a b c d, decode_triggers-to_dict ts h.1) refl

-- The scheduler reads all triggers of a specification, but not the reference to the autoscaler, whose key
-- is another one: it makes no context for it, and changes none.
pub to_smarthpa_spec-unscheduled :
    {F : Type 0} (times : Times) (now : ℕ) (replies : String → Reply)
    (hpa_of : HpaObjectReference → Option Hpa) (ts : List (TriggerConfig F))
    (name namespace hpa_name : String)
    → All IsReadable ts
    → (j : Json) × (spec : SmartHpaSpec) × (get "spec" (to_smarthpa_spec ts name namespace hpa_name)
        ≡ some j)
      × (decode_spec j ≡ some spec)
      × (spec.triggers ≡ map read_back ts)
      × ((generation : ℕ) (old : Option (ℕ × Context))
          → process_smart_hpa times now replies hpa_of (found generation spec) old ≡ old)
unfolding to_smarthpa_spec decode_spec process_smart_hpa
to_smarthpa_spec-unscheduled times now replies hpa_of ts name namespace hpa_name h = (
  object (
      ("hpaObjectRef", object (("name", str hpa_name) ∷ ("namespace", str namespace) ∷ []))
      ∷ ("triggers", array (map to_dict ts))
      ∷ []),
  record { hpa_object_ref = none; triggers = map read_back ts },
  refl,
  rw (decode_triggers-to_dict ts h) refl,
  refl,
  (λ generation old. refl),
)
