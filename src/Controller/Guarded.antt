-- ===== src/Controller/Guarded.antt =====
-- internal/controller/smarthorizontalpodautoscaler_controller.go and internal/scheduler/scheduler.go: the
-- finalizer, which keeps an object until its context is removed.
use smart_hpa.Prelude.{
  ℕ, ◌≡◌, ◌⊎◌, Bool, true, false, ◌||◌, String, List, [], ◌∷◌, ◌++◌, Option, none, some,
  if◌then◌else◌,
}
use smart_hpa.Scheduler.{Times}
use smart_hpa.Scheduler.Context.{Hpa, Context}
use smart_hpa.Scheduler.Context
use smart_hpa.Scheduler.Decode.{
  HpaObjectReference, Fetched, not_found, failed, found, process_smart_hpa,
}
use smart_hpa.Controller.{Key, same_key, Object, Cluster, Reply, done, refused, Replies, Machinery}
use smart_hpa.Controller.Reconcile.{reconcile}

-- What the worker's `client.Get` answers.
abbrev pub get_answer : Reply → Option Object → Fetched
get_answer refused o = failed
get_answer done none = not_found
get_answer done (some o) = found o.generation o.spec

abbrev pub is_queued : Key → List Key → Bool
is_queued key [] = false
is_queued key (k ∷ queue) = same_key k key || is_queued key queue

module _ (times : Times) (key : Key) where
  abbrev pub taken :
      ℕ
      → (String → Context.Reply)
      → (HpaObjectReference → Option Hpa)
      → Reply
      → Cluster
      → List Key
      → Cluster
  taken now replies hpa_of reply c [] = c
  taken now replies hpa_of reply c (k ∷ queue) =
      if same_key k key
      then record c {
        queue = queue;
        context = process_smart_hpa times now replies hpa_of (get_answer reply c.object) c.context;
      }
      else record c { queue = queue }

  -- A turn of `ProcessItem`, for the context of one key.
  unfoldable pub process_item :
      ℕ → (String → Context.Reply) → (HpaObjectReference → Option Hpa) → Reply → Cluster → Cluster
  unfolding process_smart_hpa
  process_item now replies hpa_of reply c = taken now replies hpa_of reply c c.queue

-- Also, nothing else has a finalizer on the objects: one that is deleted is removed without it.
pub record IsAlone (m : Machinery) : Type 0 where
  pub removed_law : (fs : List String) → m.contains_finalizer (m.remove_finalizer fs) ≡ false
  pub deleted_law :
      (o : Object)
      → o.is_deleted ≡ true
      → m.contains_finalizer o.finalizers ≡ false
      → m.stored o ≡ none

module _ (times : Times) (machinery : Machinery) (key : Key) where
  -- What can happen to an object of a key, and to its context, after it is created.
  pub data ClusterStep : Cluster → Cluster → Type 0 where
    reconciled :
        (c : Cluster) (replies : Replies) → ClusterStep c (reconcile machinery true replies key c).1
    worked :
        (c : Cluster) (now : ℕ) (replies : String → Context.Reply)
        (hpa_of : HpaObjectReference → Option Hpa) (reply : Reply)
        → ClusterStep c (process_item times key now replies hpa_of reply c)
    called :
        (c : Cluster) (generation : ℕ) (x y : Context)
        → c.context ≡ some (generation, x)
        → ClusterStep c (record c { context = some (generation, y) })
    -- Somebody else writes the object, and does not take the finalizer away.
    edited :
        (c : Cluster) (o p : Object)
        → c.object ≡ some o
        → (machinery.contains_finalizer o.finalizers ≡ true
            → machinery.contains_finalizer p.finalizers ≡ true)
        → ClusterStep c (record c { object = some p })
    removed :
        (c : Cluster) (o : Object)
        → c.object ≡ some o
        → machinery.contains_finalizer o.finalizers ≡ false
        → ClusterStep c (record c { object = none })
    hpas_changed :
        (c : Cluster) (hpas : List (Key × Hpa)) → ClusterStep c (record c { hpas = hpas })
    other_sent :
        (c : Cluster) (k : Key)
        → same_key k key ≡ false
        → ClusterStep c (record c { queue = c.queue ++ (k ∷ []) })

  pub data ClusterReach (c : Cluster) : Cluster → Type 0 where
    at_once : ClusterReach c c
    then_step : {d e : Cluster} → ClusterReach c d → ClusterStep d e → ClusterReach c e

  abbrev pub IsGuardedBy : Option Object → Option (ℕ × Context) → List Key → Type 0
  IsGuardedBy none context queue = context ≡ none
  IsGuardedBy (some o) context queue =
      (machinery.contains_finalizer o.finalizers ≡ true)
      ⊎ ((context ≡ none) × (is_queued key queue ≡ false))

  -- An object without the finalizer has no context, nor is its key in the queue.
  abbrev pub IsGuarded : Cluster → Type 0
  IsGuarded c = IsGuardedBy c.object c.context c.queue
