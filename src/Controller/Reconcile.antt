-- ===== src/Controller/Reconcile.antt =====
-- internal/controller/smarthorizontalpodautoscaler_controller.go: `Reconcile` and `handleDeletion`.
use smart_hpa.Prelude.{Bool, true, false, Option, none, some, if◌then◌else◌}
use smart_hpa.Controller.{
  Key, Condition, is_ready, is_hpa_valid, is_scheduled, reconciled, hpa_not_found,
  hpa_create_failed, schedule_enqueued, schedule_failed, finalizer_failed, cleanup_complete,
  Template, Object, Cluster, Reply, done, refused, Replies, ReconcileResult, Machinery,
  record_event, answer_of, ended, failed_after, with_conditions, with_finalizers, update_status,
  ensure_hpa_from_template, validate_hpa_reference, enqueue_for_scheduling, condition,
}

abbrev pub record_failed : Reply → Cluster → Cluster
record_failed done c = c
record_failed refused c = record_event true finalizer_failed c

abbrev pub remove_context : Bool → Cluster → Cluster
remove_context true c = record c { context = none }
remove_context false c = c

abbrev pub scheduled_condition : Bool → Condition
scheduled_condition true = condition is_scheduled true schedule_enqueued 0
scheduled_condition false = condition is_scheduled false schedule_failed 0

abbrev pub record_done : Reply → Cluster → Cluster
record_done done c = record_event false reconciled c
record_done refused c = c

abbrev pub ensure_template : Replies → Object → Cluster → Option Template → Bool × Cluster
ensure_template replies o c none = (true, c)
ensure_template replies o c (some template) =
    ensure_hpa_from_template replies.to_get_template replies.to_own replies.to_create o template c

module _ (machinery : Machinery) where
  open machinery use {
    contains_finalizer, add_finalizer, remove_finalizer, set_status_condition, stored,
  }

  abbrev pub set_condition : Condition → Object → Object
  set_condition c o = with_conditions (set_status_condition c o.conditions) o

  -- `Update`
  abbrev pub update_object : Reply → Object → Cluster → Cluster
  update_object done o c = record c { object = stored o }
  update_object refused o c = c

  -- `handleDeletion`; `has_scheduler` tells whether there is a scheduler.
  unfoldable pub handle_deletion : Bool → Reply → Object → Cluster → ReconcileResult × Cluster
  handle_deletion has_scheduler reply o c =
      if contains_finalizer o.finalizers
      then (
        answer_of reply ended (failed_after 0),
        record_failed reply (
            update_object reply (with_finalizers (remove_finalizer o.finalizers) o)
              (record_event false cleanup_complete (remove_context has_scheduler c))),
      )
      else (ended, c)

  abbrev pub settled_object : Bool → Object → Object
  settled_object enqueued o = set_condition (condition is_ready true reconciled o.generation) (
      set_condition (scheduled_condition enqueued)
        (set_condition (condition is_hpa_valid true reconciled 0) o))

  -- From the condition of the queue on.
  abbrev pub settle : Reply → Object → Bool × Cluster → ReconcileResult × Cluster
  settle reply o (enqueued, c) = (
    answer_of reply (record { requeue_after = 300; has_error = false }) (failed_after 5),
    record_done reply (update_status reply (settled_object enqueued o) c),
  )

  abbrev pub check_reference : Replies → Key → Object → Cluster → Bool → ReconcileResult × Cluster
  check_reference replies key o c true =
      settle replies.to_update_status o (enqueue_for_scheduling replies.to_send key o c)
  check_reference replies key o c false = (
    failed_after 30,
    update_status replies.to_update_status
        (set_condition (condition is_hpa_valid false hpa_not_found 0) o) c,
  )

  abbrev pub after_template : Replies → Key → Object → Bool × Cluster → ReconcileResult × Cluster
  after_template replies key o (true, c) =
      check_reference replies key o c (validate_hpa_reference replies.to_get_reference o c)
  after_template replies key o (false, c) = (failed_after 30, record_event true hpa_create_failed c)

  -- From the template on.
  unfoldable pub reconcile_object : Replies → Key → Object → Cluster → ReconcileResult × Cluster
  unfolding ensure_hpa_from_template validate_hpa_reference enqueue_for_scheduling
  reconcile_object replies key o c =
      after_template replies key o (ensure_template replies o c o.template)

  abbrev pub refetched : Replies → Key → Cluster → Option Object → ReconcileResult × Cluster
  refetched replies key c none = (failed_after 0, c)
  refetched replies key c (some o) = reconcile_object replies key o c

  abbrev pub get_again : Reply → Replies → Key → Cluster → ReconcileResult × Cluster
  get_again done replies key c = refetched replies key c c.object
  get_again refused replies key c = (failed_after 0, c)

  abbrev pub with_finalizer :
      Reply → Reply → Replies → Key → Object → Cluster → ReconcileResult × Cluster
  with_finalizer done get replies key o c =
      get_again get replies key
        (update_object done (with_finalizers (add_finalizer o.finalizers) o) c)
  with_finalizer refused get replies key o c = (failed_after 0, c)

  unfoldable pub reconcile_found :
      Bool → Replies → Key → Object → Cluster → ReconcileResult × Cluster
  unfolding handle_deletion reconcile_object
  reconcile_found has_scheduler replies key o c =
      if o.is_deleted
      then handle_deletion has_scheduler replies.to_update o c
      else if contains_finalizer o.finalizers
      then reconcile_object replies key o c
      else with_finalizer replies.to_update replies.to_get_again replies key o c

  abbrev pub reconcile_fetched :
      Bool → Reply → Replies → Key → Cluster → Option Object → ReconcileResult × Cluster
  reconcile_fetched has_scheduler refused replies key c o = (failed_after 30, c)
  reconcile_fetched has_scheduler done replies key c none = (ended, c)
  reconcile_fetched has_scheduler done replies key c (some o) =
      reconcile_found has_scheduler replies key o c

  -- `Reconcile`
  unfoldable pub reconcile : Bool → Replies → Key → Cluster → ReconcileResult × Cluster
  unfolding reconcile_found
  reconcile has_scheduler replies key c =
      reconcile_fetched has_scheduler replies.to_get replies key c c.object
