-- ===== src/Tests/Controller.antt =====
-- The controller on an object with a trigger, whose autoscaler is there.
use smart_hpa.Prelude.{
  ◌≡◌, refl, Bool, true, false, not, ◌&&◌, ◌||◌, String, List, [], ◌∷◌, Option, none, some,
  if◌then◌else◌, arith,
}
use smart_hpa.Prelude.Int.{pos}
use smart_hpa.Prelude.Text.{str_eq}
use smart_hpa.Clock.{monday_morning}
use smart_hpa.Scheduler.{Trigger}
use smart_hpa.Scheduler.Context.{Hpa}
use smart_hpa.Scheduler.Context
use smart_hpa.Controller.{Key, Object, Cluster, done, sent, Replies, Machinery}
use smart_hpa.Controller.Reconcile.{reconcile}
use smart_hpa.Controller.Settled.{IsMachinery, IsReconciled, reconcile-IsReconciled}
use smart_hpa.Controller.Guarded.{process_item}
use smart_hpa.Tests.Scheduler.{times}

abbrev finalizer_name : String
finalizer_name = "autoscaling.sarabala.io/smarthpa-finalizer"

abbrev contains : List String → Bool
contains [] = false
contains (f ∷ fs) = str_eq f finalizer_name || contains fs

abbrev without_finalizer : List String → List String
without_finalizer [] = []
without_finalizer (f ∷ fs) =
    let rest = without_finalizer fs in if str_eq f finalizer_name then rest else f ∷ rest

abbrev stored_object : Object → Option Object
stored_object o = if o.is_deleted && not (contains o.finalizers) then none else some o

abbrev machinery : Machinery
machinery = record {
  contains_finalizer = contains;
  add_finalizer = λ fs. finalizer_name ∷ fs;
  remove_finalizer = without_finalizer;
  set_status_condition = λ c cs. c ∷ cs;
  stored = stored_object;
}

machinery-IsMachinery : IsMachinery machinery
machinery-IsMachinery = record {
  added_law = λ fs. refl;
  set_law = λ t c cs. refl;
  live_law = λ o l. ground arith;
}

abbrev key : Key
key = record { namespace = "shop"; name = "web" }

abbrev no_window : Trigger
no_window = record {
  name = "peak";
  priority = some (pos 1);
  timezone = "UTC";
  interval = none;
  start_time = "";
  end_time = "";
  start_hpa_config = none;
  end_hpa_config = none;
  suspend = false;
}

abbrev new_object : Object
new_object = record {
  key = key;
  generation = 1;
  is_deleted = false;
  finalizers = [];
  template = none;
  spec = record {
    hpa_object_ref = some (record { namespace = ""; name = "web" });
    triggers = no_window ∷ [];
  };
  conditions = [];
}

abbrev hpa : Hpa
hpa = record { min_replicas = some (pos 1); max_replicas = pos 3 }

abbrev cluster : Cluster
cluster = record {
  object = some new_object;
  hpas = (key, hpa) ∷ [];
  queue = [];
  context = none;
  events = [];
}

abbrev carried_out : Replies
carried_out = record {
  to_get = done;
  to_update = done;
  to_get_again = done;
  to_get_template = done;
  to_own = done;
  to_create = done;
  to_get_reference = done;
  to_send = sent;
  to_update_status = done;
}

abbrev settled : Cluster
settled = (reconcile machinery true carried_out key cluster).1

settled_queue : settled.queue ≡ key ∷ []
unfolding reconcile
settled_queue = refl

reconcile-IsReconciled_example :
    IsReconciled machinery machinery-IsMachinery carried_out key new_object cluster
      (reconcile machinery true carried_out key cluster)
reconcile-IsReconciled_example =
    reconcile-IsReconciled machinery machinery-IsMachinery carried_out key true new_object cluster
      refl refl

abbrev scheduled_cluster : Cluster
scheduled_cluster =
    process_item times key monday_morning (λ name. Context.answered) (λ r. some hpa) done settled
