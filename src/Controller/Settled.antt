-- ===== src/Controller/Settled.antt =====
-- internal/controller/smarthorizontalpodautoscaler_controller.go: what `Reconcile` leaves behind for an
-- object that is not being deleted.
use mathlib.Core.Path.{subst, sym}
use smart_hpa.Prelude.{
  ◌≡◌, refl, ◌∙◌, ◌⊎◌, inl, inr, Bool, true, false, not, ◌&&◌, ◌||◌, String, List, [], ◌∷◌, ◌++◌,
  Option, none, some, if◌then◌else◌, Bool-cases, arith,
}
use smart_hpa.Scheduler.Context.{Hpa}
use smart_hpa.Controller.{
  Key, ConditionType, is_ready, is_hpa_valid, is_scheduled, reconciled, Condition, Object, Cluster,
  Reply, done, refused, Sending, sent, timed_out, cancelled, Replies, ReconcileResult, Machinery,
  with_finalizers, update_status, hpa_not_found, validate_hpa_reference, names_hpa, is_some_trigger,
  send, enqueue_for_scheduling, condition,
}
use smart_hpa.Controller.Reconcile.{
  handle_deletion, reconcile, reconcile_fetched, reconcile_found, reconcile_object, ensure_template,
  after_template, check_reference, settle, settled_object, scheduled_condition, with_finalizer,
  refetched, set_condition,
}
use smart_hpa.Controller.Ensured.{
  is_refused, some_refused, HoldsReference, MissesReference, HoldsTemplate, IsKept, IsEnsured,
  ensure_template-IsEnsured, IsFound, is_valid_reference-IsFound,
}

abbrev pub same_type : ConditionType → ConditionType → Bool
same_type is_ready is_ready = true
same_type is_hpa_valid is_hpa_valid = true
same_type is_scheduled is_scheduled = true
same_type _ _ = false

abbrev pub condition_of : ConditionType → List Condition → Option Condition
condition_of t [] = none
condition_of t (c ∷ cs) =
    let rest = condition_of t cs in if same_type t c.kind then some c else rest

-- What is documented of the machinery.
pub record IsMachinery (m : Machinery) : Type 0 where
  pub added_law : (fs : List String) → m.contains_finalizer (m.add_finalizer fs) ≡ true
  pub set_law :
      (t : ConditionType) (c : Condition) (cs : List Condition)
      → condition_of t (m.set_status_condition c cs)
        ≡ (if same_type t c.kind then some c else condition_of t cs)
  -- An update of an object that is not being deleted is stored.
  pub live_law : (o : Object) → o.is_deleted ≡ false → m.stored o ≡ some o

abbrev pub is_sent : Sending → Bool
is_sent sent = true
is_sent timed_out = false
is_sent cancelled = false

-- The object asks for a schedule: it has triggers and names an autoscaler.
abbrev pub wants_schedule : Object → Bool
wants_schedule o = is_some_trigger o.spec.triggers && names_hpa o.spec.hpa_object_ref

module _ (machinery : Machinery) (law : IsMachinery machinery) (replies : Replies) (key : Key) where
  open machinery use {contains_finalizer, set_status_condition}

  -- Whether the object asks for a schedule, and its key is sent.
  abbrev pub IsSent : Object → Bool → List Key → List Key → Type 0
  IsSent o enqueued before after =
      (enqueued ≡ (not (wants_schedule o) || is_sent replies.to_send))
      × (after
          ≡ (if wants_schedule o && is_sent replies.to_send then before ++ (key ∷ []) else before))

  abbrev pub IsSettled : Object → List Key → Cluster → Type 0
  IsSettled o before d =
      (p : Object) × (enqueued : Bool) × (d.object ≡ some p)
      × (contains_finalizer p.finalizers ≡ true)
      × (p.spec ≡ o.spec)
      × (condition_of is_ready p.conditions
          ≡ some (condition is_ready true reconciled o.generation))
      × (condition_of is_hpa_valid p.conditions ≡ some (condition is_hpa_valid true reconciled 0))
      × (condition_of is_scheduled p.conditions ≡ some (scheduled_condition enqueued))
      × IsSent o enqueued before d.queue
      × HoldsReference o d.hpas
      × HoldsTemplate o o.template d.hpas

  abbrev pub IsReconciled : Object → Cluster → ReconcileResult × Cluster → Type 0
  IsReconciled o c r =
      (r.1.context ≡ c.context)
      × (((r.0.has_error ≡ false) × IsSettled o c.queue r.1)
          ⊎ ((r.0.has_error ≡ true) × ((some_refused replies ≡ true) ⊎ MissesReference o r.1.hpas)))

  settled_conditions :
      (enqueued : Bool) (o : Object)
      → (condition_of is_ready (settled_object machinery enqueued o).conditions
          ≡ some (condition is_ready true reconciled o.generation))
        × (condition_of is_hpa_valid (settled_object machinery enqueued o).conditions
            ≡ some (condition is_hpa_valid true reconciled 0))
        × (condition_of is_scheduled (settled_object machinery enqueued o).conditions
            ≡ some (scheduled_condition enqueued))
  settled_conditions true o = (simp law.set_law, simp law.set_law, simp law.set_law)
  settled_conditions false o = (simp law.set_law, simp law.set_law, simp law.set_law)

  send_lem :
      (sending : Sending) (c : Cluster)
      → ((send sending key c).0 ≡ is_sent sending)
        × ((send sending key c).1.queue
            ≡ (if is_sent sending then c.queue ++ (key ∷ []) else c.queue))
        × ((send sending key c).1.hpas ≡ c.hpas)
        × ((send sending key c).1.context ≡ c.context)
  send_lem sent c = (refl, refl, refl, refl)
  send_lem timed_out c = (refl, refl, refl, refl)
  send_lem cancelled c = (refl, refl, refl, refl)

  abbrev pub IsEnqueued : Object → Cluster → Bool × Cluster → Type 0
  IsEnqueued o c (b, d) = IsSent o b c.queue d.queue × (d.hpas ≡ c.hpas) × (d.context ≡ c.context)

  enqueue_for_scheduling-IsEnqueued :
      (o : Object) (c : Cluster) → IsEnqueued o c (enqueue_for_scheduling replies.to_send key o c)
  unfolding enqueue_for_scheduling
  enqueue_for_scheduling-IsEnqueued o c = elim (Bool-cases (wants_schedule o)) [
    | inl e ↦
        let (b, queue, hpas, context) = send_lem replies.to_send c in
        rw e ((b, queue), hpas, context)
    | inr e ↦ rw e ((refl, refl), refl, refl)
  ]

  settle-IsReconciled :
      (reply : Reply) (o : Object) (c : Cluster) (b : Bool) (d : Cluster)
      → (is_refused reply ≡ true → some_refused replies ≡ true)
      → contains_finalizer o.finalizers ≡ true
      → IsEnqueued o c (b, d)
      → HoldsReference o c.hpas
      → HoldsTemplate o o.template c.hpas
      → IsReconciled o c (settle machinery reply o (b, d))
  settle-IsReconciled refused o c b d h f e r t = (e.2, inr (refl, inl (h refl)))
  settle-IsReconciled done o c b d h f e r t =
      let (ready, valid, scheduled) = settled_conditions b o in
      (
        e.2,
        inl (
          refl,
          (
            settled_object machinery b o,
            b,
            refl,
            f,
            refl,
            ready,
            valid,
            scheduled,
            e.0,
            subst (HoldsReference o) (sym e.1) r,
            subst (HoldsTemplate o o.template) (sym e.1) t,
          ),
        ),
      )

  abbrev Missed : Object → List (Key × Hpa) → Type 0
  Missed o hpas = (some_refused replies ≡ true) ⊎ MissesReference o hpas

  update_status_lem :
      (reply : Reply) (o : Object) (c : Cluster)
      → ((update_status reply o c).hpas ≡ c.hpas) × ((update_status reply o c).context ≡ c.context)
  update_status_lem done o c = (refl, refl)
  update_status_lem refused o c = (refl, refl)

  check_reference-IsReconciled :
      (o : Object) (c : Cluster) (b : Bool)
      → contains_finalizer o.finalizers ≡ true
      → IsFound (some_refused replies ≡ true) o c.hpas b
      → HoldsTemplate o o.template c.hpas
      → IsReconciled o c (check_reference machinery replies key o c b)
  check_reference-IsReconciled o c true f (inl found) t =
      settle-IsReconciled replies.to_update_status o c
        (enqueue_for_scheduling replies.to_send key o c).0
        (enqueue_for_scheduling replies.to_send key o c).1 (λ h. grind arith) f
        (enqueue_for_scheduling-IsEnqueued o c) found.1 t
  check_reference-IsReconciled o c true f (inr missing) t = absurd (grind arith)
  check_reference-IsReconciled o c false f (inl found) t = absurd (grind arith)
  check_reference-IsReconciled o c false f (inr missing) t =
      let bad = set_condition machinery (condition is_hpa_valid false hpa_not_found 0) o in
      let (hpas, context) = update_status_lem replies.to_update_status bad c in
      (context, inr (refl, subst (λ h. Missed o h) (sym hpas) missing.1))

  moved-IsReconciled :
      (o : Object) (c d : Cluster) (outcome : ReconcileResult) (e : Cluster)
      → IsKept c d
      → IsReconciled o d (outcome, e)
      → IsReconciled o c (outcome, e)
  moved-IsReconciled o c d outcome e k h = (
    h.0 ∙ k.2,
    elim h.1 [ inl s ↦ inl (s.0, subst (λ q. IsSettled o q e) k.1 s.1) | inr s ↦ inr s ],
  )

  after_template-IsReconciled :
      (o : Object) (c : Cluster) (b : Bool) (d : Cluster)
      → contains_finalizer o.finalizers ≡ true
      → IsEnsured (some_refused replies ≡ true) o o.template c (b, d)
      → IsReconciled o c (after_template machinery replies key o (b, d))
  unfolding validate_hpa_reference
  after_template-IsReconciled o c true d f (k, inl t) =
      let b = validate_hpa_reference replies.to_get_reference o d in
      let found =
        is_valid_reference-IsFound {R = some_refused replies ≡ true} replies.to_get_reference o
          d.hpas o.spec.hpa_object_ref (λ h. grind arith) refl in
      moved-IsReconciled o c d (check_reference machinery replies key o d b).0
        (check_reference machinery replies key o d b).1 k
        (check_reference-IsReconciled o d b f found t.1)
  after_template-IsReconciled o c true d f (k, inr e) = absurd (grind arith)
  after_template-IsReconciled o c false d f (k, inl e) = absurd (grind arith)
  after_template-IsReconciled o c false d f (k, inr r) = (k.2, inr (refl, inl r.1))

  reconcile_object-IsReconciled :
      (o : Object) (c : Cluster)
      → contains_finalizer o.finalizers ≡ true
      → IsReconciled o c (reconcile_object machinery replies key o c)
  unfolding reconcile_object
  reconcile_object-IsReconciled o c f =
      let e = ensure_template replies o c o.template in
      after_template-IsReconciled o c e.0 e.1 f (ensure_template-IsEnsured replies o c o.template)

  with_finalizer-IsReconciled :
      (update get : Reply) (o : Object) (c : Cluster)
      → ((is_refused update || is_refused get) ≡ true → some_refused replies ≡ true)
      → o.is_deleted ≡ false
      → IsReconciled o c (with_finalizer machinery update get replies key o c)
  with_finalizer-IsReconciled refused get o c h l = (refl, inr (refl, inl (h refl)))
  with_finalizer-IsReconciled done refused o c h l = (refl, inr (refl, inl (h refl)))
  with_finalizer-IsReconciled done done o c h l =
      let p = with_finalizers (machinery.add_finalizer o.finalizers) o in
      subst (λ x. IsReconciled o c (refetched machinery replies key (record c { object = x }) x))
        (sym (law.live_law p l))
        (reconcile_object-IsReconciled p (record c { object = some p })
          (law.added_law o.finalizers))

  live-IsReconciled :
      (o : Object) (c : Cluster)
      → o.is_deleted ≡ false
      → IsReconciled o c (
          if contains_finalizer o.finalizers
          then reconcile_object machinery replies key o c
          else with_finalizer machinery replies.to_update replies.to_get_again replies key o c)
  live-IsReconciled o c l = elim (Bool-cases (contains_finalizer o.finalizers)) [
    | inl f ↦ rw f (reconcile_object-IsReconciled o c f)
    | inr f ↦ rw f (
        with_finalizer-IsReconciled replies.to_update replies.to_get_again o c (λ h. grind arith) l)
  ]

  reconcile_fetched-IsReconciled :
      (has_scheduler : Bool) (get : Reply) (o : Object) (c : Cluster)
      → (is_refused get ≡ true → some_refused replies ≡ true)
      → o.is_deleted ≡ false
      → IsReconciled o c (reconcile_fetched machinery has_scheduler get replies key c (some o))
  unfolding reconcile_found
  reconcile_fetched-IsReconciled has_scheduler refused o c h l = (refl, inr (refl, inl (h refl)))
  reconcile_fetched-IsReconciled has_scheduler done o c h l =
      subst
        (λ b. IsReconciled o c (
          if b
          then handle_deletion machinery has_scheduler replies.to_update o c
          else if contains_finalizer o.finalizers
          then reconcile_object machinery replies key o c
          else with_finalizer machinery replies.to_update replies.to_get_again replies key o c))
        (sym l) (live-IsReconciled o c l)

  -- If the machinery does what is documented, and an object that is not being deleted is reconciled:
  -- the scheduler's context of it is not touched. Either an error is returned, and a call was refused or
  -- the autoscaler that it names is not there. Or none is returned, and the object has the finalizer,
  -- its specification, and the conditions that it is ready, that its autoscaler is there, and whether
  -- its key was sent or need not be; the autoscalers of its reference and of its template are there; and
  -- its key was sent, at the end of the queue, just if it has triggers and names an autoscaler and the
  -- queue took it in time.
  pub reconcile-IsReconciled :
      (has_scheduler : Bool) (o : Object) (c : Cluster)
      → c.object ≡ some o
      → o.is_deleted ≡ false
      → IsReconciled o c (reconcile machinery has_scheduler replies key c)
  unfolding reconcile
  reconcile-IsReconciled has_scheduler o c e l =
      subst
        (λ x.
          IsReconciled o c
            (reconcile_fetched machinery has_scheduler replies.to_get replies key c x))
        (sym e)
        (reconcile_fetched-IsReconciled has_scheduler replies.to_get o c (λ h. grind arith) l)
