-- ===== src/Controller/Held.antt =====
-- internal/controller/smarthorizontalpodautoscaler_controller.go: `Reconcile` keeps the finalizer.
use mathlib.Core.Path.{subst, sym}
use smart_hpa.Prelude.{◌≡◌, inl, inr, Bool, true, false, Option, none, some, Bool-cases}
use smart_hpa.Controller.{
  Key, Object, Cluster, Reply, done, refused, Sending, sent, timed_out, cancelled, Replies,
  Machinery, update_status, condition, is_hpa_valid, hpa_not_found, validate_hpa_reference, send,
  enqueue_for_scheduling,
}
use smart_hpa.Controller.Ensured.{ensure_template-IsEnsured}
use smart_hpa.Controller.Settled.{wants_schedule}
use smart_hpa.Controller.Reconcile.{
  reconcile_object, ensure_template, after_template, check_reference, set_condition, settled_object,
  get_again, refetched, record_done,
}

-- The object is there with the finalizer.
abbrev pub Holds : Machinery → Option Object → Type 0
Holds machinery none = ⊥
Holds machinery (some o) = machinery.contains_finalizer o.finalizers ≡ true

module _ (machinery : Machinery) (key : Key) where
  open machinery use {contains_finalizer}

  update_status-Holds :
      (reply : Reply) (o : Object) (c : Cluster)
      → contains_finalizer o.finalizers ≡ true
      → Holds machinery c.object
      → Holds machinery (update_status reply o c).object
  update_status-Holds done o c f h = f
  update_status-Holds refused o c f h = h

  record_done-Holds :
      (reply : Reply) (c : Cluster)
      → Holds machinery c.object
      → Holds machinery (record_done reply c).object
  record_done-Holds done c h = h
  record_done-Holds refused c h = h

  send-Holds :
      (sending : Sending) (c : Cluster)
      → Holds machinery c.object
      → Holds machinery (send sending key c).1.object
  send-Holds sent c h = h
  send-Holds timed_out c h = h
  send-Holds cancelled c h = h

  enqueue-Holds :
      (sending : Sending) (o : Object) (c : Cluster)
      → Holds machinery c.object
      → Holds machinery (enqueue_for_scheduling sending key o c).1.object
  unfolding enqueue_for_scheduling
  enqueue-Holds sending o c h = elim (Bool-cases (wants_schedule o)) [
    | inl e ↦ rw e (send-Holds sending c h)
    | inr e ↦ rw e h
  ]

  check_reference-Holds :
      (replies : Replies) (o : Object) (c : Cluster) (b : Bool)
      → contains_finalizer o.finalizers ≡ true
      → Holds machinery c.object
      → Holds machinery (check_reference machinery replies key o c b).1.object
  check_reference-Holds replies o c true f h =
      let e = enqueue_for_scheduling replies.to_send key o c in
      record_done-Holds replies.to_update_status
        (update_status replies.to_update_status (settled_object machinery e.0 o) e.1)
        (update_status-Holds replies.to_update_status (settled_object machinery e.0 o) e.1 f
          (enqueue-Holds replies.to_send o c h))
  check_reference-Holds replies o c false f h =
      update_status-Holds replies.to_update_status
        (set_condition machinery (condition is_hpa_valid false hpa_not_found 0) o) c f h

  after_template-Holds :
      (replies : Replies) (o : Object) (b : Bool) (c : Cluster)
      → contains_finalizer o.finalizers ≡ true
      → Holds machinery c.object
      → Holds machinery (after_template machinery replies key o (b, c)).1.object
  after_template-Holds replies o true c f h =
      check_reference-Holds replies o c (validate_hpa_reference replies.to_get_reference o c) f h
  after_template-Holds replies o false c f h = h

  pub reconcile_object-Holds :
      (replies : Replies) (o : Object) (c : Cluster)
      → contains_finalizer o.finalizers ≡ true
      → Holds machinery c.object
      → Holds machinery (reconcile_object machinery replies key o c).1.object
  unfolding reconcile_object
  reconcile_object-Holds replies o c f h =
      let e = ensure_template replies o c o.template in
      after_template-Holds replies o e.0 e.1 f
        (subst (Holds machinery) (sym (ensure_template-IsEnsured replies o c o.template).0.0) h)

  refetched-Holds :
      (replies : Replies) (c : Cluster) (x : Option Object)
      → Holds machinery x
      → Holds machinery c.object
      → Holds machinery (refetched machinery replies key c x).1.object
  refetched-Holds replies c none f h = h
  refetched-Holds replies c (some o) f h = reconcile_object-Holds replies o c f h

  pub get_again-Holds :
      (reply : Reply) (replies : Replies) (c : Cluster)
      → Holds machinery c.object
      → Holds machinery (get_again machinery reply replies key c).1.object
  get_again-Holds done replies c h = refetched-Holds replies c c.object h h
  get_again-Holds refused replies c h = h
