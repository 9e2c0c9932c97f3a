-- ===== src/Scheduler/Decode.antt =====
-- A SmartHPA as the API server stores it, read by the tags of the structs of
-- api/v1alpha1/smarthorizontalpodautoscaler_types.go, and internal/scheduler/scheduler.go on the way from
-- such an object to its context.
use smart_hpa.Prelude.{
  ℕ, Bool, false, String, List, [], ◌∷◌, Option, none, some, if◌then◌else◌, ◌==◌, ltb,
}
use smart_hpa.Prelude.Int.{ℤ, pos, negsuc}
use smart_hpa.Prelude.Text.{str_eq}
use smart_hpa.Json.{Json, null, bool, num, str, arr, obj, Items, nil, cons, get}
use smart_hpa.Scheduler.{Interval, HpaConfig, Trigger, Times}
use smart_hpa.Scheduler.Context.{Hpa, Context, Reply, execute}

infixl 5 ◌>>=◌
abbrev pub ◌>>=◌ {ℓ κ} : {A : Type ℓ} {B : Type κ} → Option A → (A → Option B) → Option B
none >>= f = none
some a >>= f = f a

-- A field of a text, a number, a boolean or a struct: absent, or of a wrong type.
abbrev pub text_of : Option Json → Option String
text_of none = some ""
text_of (some null) = some ""
text_of (some (str s)) = some s
text_of (some _) = none

-- A signed integer: its magnitude, or one less where it is negative, is below the limit of its type.
abbrev pub is_integer_below : ℕ → ℤ → Bool
is_integer_below limit (pos n) = ltb n limit
is_integer_below limit (negsuc n) = ltb n limit

abbrev pub int32_limit : ℕ
int32_limit = 2_147_483_648

abbrev pub int64_limit : ℕ
int64_limit = 9_223_372_036_854_775_808

abbrev pub integer_of : ℕ → Option Json → Option (Option ℤ)
integer_of limit none = some none
integer_of limit (some null) = some none
integer_of limit (some (num n)) = if is_integer_below limit n then some (some n) else none
integer_of limit (some _) = none

abbrev pub bool_of : Option Json → Option Bool
bool_of none = some false
bool_of (some null) = some false
bool_of (some (bool b)) = some b
bool_of (some _) = none

abbrev pub struct_of {ℓ} : {A : Type ℓ} → (Json → Option A) → Option Json → Option (Option A)
struct_of decode none = some none
struct_of decode (some null) = some none
struct_of decode (some (obj fields)) = decode (obj fields) >>= λ a. some (some a)
struct_of decode (some _) = none

unfoldable pub decode_interval : Json → Option Interval
decode_interval j = do
  recurring ← text_of (get "recurring" j)
  start_date ← text_of (get "startDate" j)
  end_date ← text_of (get "endDate" j)
  some (record { recurring = recurring; start_date = start_date; end_date = end_date })

unfoldable pub decode_hpa_config : Json → Option HpaConfig
decode_hpa_config j = do
  low ← integer_of int32_limit (get "minReplicas" j)
  high ← integer_of int32_limit (get "maxReplicas" j)
  some (record { min_replicas = low; max_replicas = high })

unfoldable pub decode_trigger : Json → Option Trigger
unfolding decode_interval decode_hpa_config
decode_trigger j = do
  name ← text_of (get "name" j)
  priority ← integer_of int64_limit (get "priority" j)
  timezone ← text_of (get "timezone" j)
  interval ← struct_of decode_interval (get "interval" j)
  start_time ← text_of (get "startTime" j)
  end_time ← text_of (get "endTime" j)
  start ← struct_of decode_hpa_config (get "startHPAConfig" j)
  end ← struct_of decode_hpa_config (get "endHPAConfig" j)
  suspend ← bool_of (get "suspend" j)
  some (record {
    name = name;
    priority = priority;
    timezone = timezone;
    interval = interval;
    start_time = start_time;
    end_time = end_time;
    start_hpa_config = start;
    end_hpa_config = end;
    suspend = suspend;
  })

pub record HpaObjectReference : Type 0 where
  pub namespace : String
  pub name : String

pub record SmartHpaSpec : Type 0 where
  pub hpa_object_ref : Option HpaObjectReference
  pub triggers : List Trigger

abbrev pub decode_reference : Json → Option HpaObjectReference
decode_reference j = do
  namespace ← text_of (get "namespace" j)
  name ← text_of (get "name" j)
  some (record { namespace = namespace; name = name })

unfoldable pub decode_triggers : Items → Option (List Trigger)
unfolding decode_trigger
decode_triggers nil = some []
decode_triggers (cons j items) = do t ← decode_trigger j; ts ← decode_triggers items; some (t ∷ ts)

abbrev pub triggers_in : Option Json → Option (List Trigger)
triggers_in none = some []
triggers_in (some null) = some []
triggers_in (some (arr items)) = decode_triggers items
triggers_in (some _) = none

unfoldable pub decode_spec : Json → Option SmartHpaSpec
unfolding decode_triggers
decode_spec j = do
  reference ← struct_of decode_reference (get "HPAObjectRef" j)
  triggers ← triggers_in (get "triggers" j)
  some (record { hpa_object_ref = reference; triggers = triggers })

-- `schedules[trigger.Name] = schedule`
abbrev pub put_schedule : Trigger → List Trigger → List Trigger
put_schedule trigger [] = trigger ∷ []
put_schedule trigger (t ∷ ts) =
    let rest = put_schedule trigger ts in
    if str_eq t.name trigger.name then trigger ∷ ts else t ∷ rest

abbrev pub put_schedules : List Trigger → List Trigger → List Trigger
put_schedules schedules [] = schedules
put_schedules schedules (t ∷ ts) =
    if t.suspend then put_schedules schedules ts else put_schedules (put_schedule t schedules) ts

-- `initializeContext`, for the autoscaler that the reference names.
unfoldable pub initialize_context : Option Hpa → List Trigger → Context
initialize_context hpa triggers = record {
  schedules = put_schedules [] triggers;
  active_trigger_name = "";
  hpa = hpa;
  jobs = [];
}

-- What `client.Get` answers.
pub data Fetched : Type 0 where
  not_found failed : Fetched
  found : ℕ → SmartHpaSpec → Fetched

module _ (times : Times) (now : ℕ) (replies : String → Reply)
    (hpa_of : HpaObjectReference → Option Hpa) where
  -- The new context, executed.
  abbrev pub rebuild : ℕ → HpaObjectReference → List Trigger → Option (ℕ × Context)
  rebuild generation reference triggers =
      some (generation, execute times now replies (initialize_context (hpa_of reference) triggers))

  abbrev pub rebuild_if_changed :
      ℕ → Option HpaObjectReference → List Trigger → Option (ℕ × Context) → Option (ℕ × Context)
  rebuild_if_changed generation none triggers old = old
  rebuild_if_changed generation (some reference) triggers none =
      rebuild generation reference triggers
  rebuild_if_changed generation (some reference) triggers (some (g, c)) =
      if g == generation then some (g, c) else rebuild generation reference triggers

  -- `processSmartHPA`: the generation and the context of an object, after its item is processed.
  unfoldable pub process_smart_hpa : Fetched → Option (ℕ × Context) → Option (ℕ × Context)
  unfolding execute initialize_context
  process_smart_hpa not_found old = none
  process_smart_hpa failed old = old
  process_smart_hpa (found generation spec) old =
      rebuild_if_changed generation spec.hpa_object_ref spec.triggers old
