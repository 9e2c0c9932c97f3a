-- ===== src/Controller.antt =====
-- internal/controller/smarthorizontalpodautoscaler_controller.go: how one object is reconciled. A
-- `Cluster` is what the controller reads and writes for the object of one key. Each call of the API
-- server has a `Reply`; the recorder of events is there. Logs and the texts of errors, of events and of
-- conditions, their times, and the labels and annotations of a created autoscaler are left out.
pub mod Reconcile
pub mod Ensured
pub mod Settled
pub mod Guarded
pub mod Held
pub mod Reached
use smart_hpa.Prelude.{
  ℕ, Bool, true, false, ◌&&◌, ◌||◌, String, List, [], ◌∷◌, ◌++◌, Option, none, some, if◌then◌else◌,
}
use smart_hpa.Prelude.Int.{ℤ, pos}
use smart_hpa.Prelude.Text.{concat, str_eq}
use smart_hpa.Scheduler.Context.{Hpa, Context}
use smart_hpa.Scheduler.Decode.{HpaObjectReference, SmartHpaSpec}

pub record Key : Type 0 where
  pub namespace : String
  pub name : String

abbrev pub same_key : Key → Key → Bool
same_key k l = str_eq k.namespace l.namespace && str_eq k.name l.name

pub data ConditionType : Type 0 where
  is_ready is_hpa_valid is_scheduled : ConditionType

pub data Reason : Type 0 where
  reconciled hpa_not_found hpa_created hpa_create_failed schedule_enqueued schedule_failed : Reason
  finalizer_failed cleanup_complete : Reason

pub record Condition : Type 0 where
  pub kind : ConditionType
  pub status : Bool
  pub reason : Reason
  pub observed_generation : ℕ

-- `HPASpecTemplate`
pub record Template : Type 0 where
  pub namespace : String
  pub name : String
  pub min_replicas : Option ℤ
  pub max_replicas : Option ℤ

pub record Object : Type 0 where
  pub key : Key
  pub generation : ℕ
  pub is_deleted : Bool
  pub finalizers : List String
  pub template : Option Template
  pub spec : SmartHpaSpec
  pub conditions : List Condition

pub record Cluster : Type 0 where
  pub object : Option Object
  pub hpas : List (Key × Hpa)
  -- The scheduler's queue, and its context for the key with the generation it was made from.
  pub queue : List Key
  pub context : Option (ℕ × Context)
  -- Whether it is a warning, and its reason, the latest first.
  pub events : List (Bool × Reason)

-- Whether a call is carried out. A refused one returns an error other than that an object is not found.
pub data Reply : Type 0 where
  done refused : Reply

-- How the wait for a place in the queue ends.
pub data Sending : Type 0 where
  sent timed_out cancelled : Sending

pub record Replies : Type 0 where
  pub to_get : Reply
  pub to_update : Reply
  pub to_get_again : Reply
  pub to_get_template : Reply
  pub to_own : Reply
  pub to_create : Reply
  pub to_get_reference : Reply
  pub to_send : Sending
  pub to_update_status : Reply

-- `RequeueAfter` in seconds, and whether an error is returned.
pub record ReconcileResult : Type 0 where
  pub requeue_after : ℕ
  pub has_error : Bool

-- What the code takes from `controllerutil` and from `meta`, and from the API server.
pub record Machinery : Type 0 where
  -- `ContainsFinalizer`, `AddFinalizer` and `RemoveFinalizer` with `finalizerName`.
  pub contains_finalizer : List String → Bool
  pub add_finalizer : List String → List String
  pub remove_finalizer : List String → List String
  -- `SetStatusCondition`
  pub set_status_condition : Condition → List Condition → List Condition
  -- What is there after an update is carried out: no object, if it was deleted and waited for its last
  -- finalizer.
  pub stored : Object → Option Object

abbrev pub key_or : String → String → String → Key
key_or default namespace name = record {
  namespace = if str_eq namespace "" then default else namespace;
  name = name;
}

abbrev pub has_hpa : Key → List (Key × Hpa) → Bool
has_hpa k [] = false
has_hpa k ((l, hpa) ∷ hpas) = same_key l k || has_hpa k hpas

-- `recordEvent`
abbrev pub record_event : Bool → Reason → Cluster → Cluster
record_event warning reason c = record c { events = (warning, reason) ∷ c.events }

abbrev pub answer_of : Reply → ReconcileResult → ReconcileResult → ReconcileResult
answer_of done good bad = good
answer_of refused good bad = bad

abbrev pub ended : ReconcileResult
ended = record { requeue_after = 0; has_error = false }

abbrev pub failed_after : ℕ → ReconcileResult
failed_after seconds = record { requeue_after = seconds; has_error = true }

abbrev pub with_conditions : List Condition → Object → Object
with_conditions conditions o = record o { conditions = conditions }

abbrev pub with_finalizers : List String → Object → Object
with_finalizers finalizers o = record o { finalizers = finalizers }

-- `Status().Update`
abbrev pub update_status : Reply → Object → Cluster → Cluster
update_status done o c = record c { object = some o }
update_status refused o c = c

abbrev pub template_key : Object → Template → Key
template_key o template =
    key_or o.key.namespace template.namespace
      (if str_eq template.name "" then concat (o.key.name ∷ "-generated" ∷ []) else template.name)

abbrev pub max_or_zero : Option ℤ → ℤ
max_or_zero (some n) = n
max_or_zero none = pos 0

abbrev pub created_hpa : Template → Hpa
created_hpa template = record {
  min_replicas = template.min_replicas;
  max_replicas = max_or_zero template.max_replicas;
}

abbrev pub create_hpa : Reply → Reply → Key → Template → Cluster → Bool × Cluster
create_hpa done done key template c = (
  true,
  record_event false hpa_created (record c { hpas = (key, created_hpa template) ∷ c.hpas }),
)
create_hpa _ _ key template c = (false, c)

abbrev pub create_unless : Bool → Reply → Reply → Key → Template → Cluster → Bool × Cluster
create_unless true own create key template c = (true, c)
create_unless false own create key template c = create_hpa own create key template c

-- `ensureHPAFromTemplate`: whether it returns without an error, and the cluster after it.
unfoldable pub ensure_hpa_from_template :
    Reply → Reply → Reply → Object → Template → Cluster → Bool × Cluster
unfolding concat
ensure_hpa_from_template refused own create o template c = (false, c)
ensure_hpa_from_template done own create o template c =
    create_unless (has_hpa (template_key o template) c.hpas) own create (template_key o template)
      template c

abbrev pub is_found : Reply → Bool → Bool
is_found done found = found
is_found refused found = false

abbrev pub reference_key : Object → HpaObjectReference → Key
reference_key o reference = key_or o.key.namespace reference.namespace reference.name

abbrev pub is_valid_reference : Reply → Object → List (Key × Hpa) → Option HpaObjectReference → Bool
is_valid_reference reply o hpas none = true
is_valid_reference reply o hpas (some reference) =
    if str_eq reference.name ""
    then true
    else is_found reply (has_hpa (reference_key o reference) hpas)

-- `validateHPAReference`: whether it returns without an error.
unfoldable pub validate_hpa_reference : Reply → Object → Cluster → Bool
validate_hpa_reference reply o c = is_valid_reference reply o c.hpas o.spec.hpa_object_ref

abbrev pub send : Sending → Key → Cluster → Bool × Cluster
send sent key c = (true, record c { queue = c.queue ++ (key ∷ []) })
send timed_out key c = (false, c)
send cancelled key c = (false, c)

abbrev pub names_hpa : Option HpaObjectReference → Bool
names_hpa none = false
names_hpa (some reference) = if str_eq reference.name "" then false else true

abbrev pub is_some_trigger {ℓ} : {A : Type ℓ} → List A → Bool
is_some_trigger [] = false
is_some_trigger (_ ∷ _) = true

-- `enqueueForScheduling`: whether it returns without an error, and the cluster after it.
unfoldable pub enqueue_for_scheduling : Sending → Key → Object → Cluster → Bool × Cluster
enqueue_for_scheduling sending key o c =
    if is_some_trigger o.spec.triggers && names_hpa o.spec.hpa_object_ref
    then send sending key c
    else (true, c)

abbrev pub condition : ConditionType → Bool → Reason → ℕ → Condition
condition kind status reason generation = record {
  kind = kind;
  status = status;
  reason = reason;
  observed_generation = generation;
}
