-- ===== src/Controller/Ensured.antt =====
-- internal/controller/smarthorizontalpodautoscaler_controller.go: the autoscalers that a template and a
-- reference name.
use smart_hpa.Prelude.{
  ◌≡◌, refl, ◌⊎◌, inl, inr, Bool, true, false, ◌||◌, List, ◌∷◌, Option, none, some, Bool-cases,
  arith,
}
use smart_hpa.Prelude.Text.{str_eq}
use smart_hpa.Scheduler.Context.{Hpa}
use smart_hpa.Scheduler.Decode.{HpaObjectReference}
use text.Mathlib.TextEquality.{eq_iff}
use text.Mathlib.TextPositions.{eq_refl}
use smart_hpa.Controller.{
  Key, Template, Object, Cluster, Reply, done, refused, Replies, has_hpa, template_key, created_hpa,
  create_hpa, ensure_hpa_from_template, reference_key, is_found, is_valid_reference,
}
use smart_hpa.Controller.Reconcile.{ensure_template}

abbrev pub is_refused : Reply → Bool
is_refused done = false
is_refused refused = true

abbrev pub some_refused : Replies → Bool
some_refused r =
    is_refused r.to_get
    || is_refused r.to_update
    || is_refused r.to_get_again
    || is_refused r.to_get_template
    || is_refused r.to_own
    || is_refused r.to_create
    || is_refused r.to_get_reference
    || is_refused r.to_update_status

abbrev pub HoldsReference : Object → List (Key × Hpa) → Type 0
HoldsReference o hpas =
    (r : HpaObjectReference)
    → o.spec.hpa_object_ref ≡ some r
    → (r.name ≡ "") ⊎ (has_hpa (reference_key o r) hpas ≡ true)

abbrev pub MissesReference : Object → List (Key × Hpa) → Type 0
MissesReference o hpas =
    (r : HpaObjectReference) × (o.spec.hpa_object_ref ≡ some r)
    × (has_hpa (reference_key o r) hpas ≡ false)

abbrev pub HoldsTemplate : Object → Option Template → List (Key × Hpa) → Type 0
HoldsTemplate o none hpas = Unit
HoldsTemplate o (some template) hpas = has_hpa (template_key o template) hpas ≡ true

same-has_hpa : (k : Key) (hpa : Hpa) (hpas : List (Key × Hpa)) → has_hpa k ((k, hpa) ∷ hpas) ≡ true
same-has_hpa k hpa hpas = rw (eq_refl k.namespace, eq_refl k.name) refl

-- The cluster but for its autoscalers and its events.
abbrev pub IsKept : Cluster → Cluster → Type 0
IsKept c d = (d.object ≡ c.object) × (d.queue ≡ c.queue) × (d.context ≡ c.context)

-- `R` holds where a call is refused.
abbrev pub IsEnsured : Type 0 → Object → Option Template → Cluster → Bool × Cluster → Type 0
IsEnsured R o template c (b, d) =
    IsKept c d × (((b ≡ true) × HoldsTemplate o template d.hpas) ⊎ ((b ≡ false) × R))

create_hpa-IsEnsured :
    {R : Type 0} (own create : Reply) (o : Object) (template : Template) (c : Cluster)
    → ((is_refused own || is_refused create) ≡ true → R)
    → IsEnsured R o (some template) c (create_hpa own create (template_key o template) template c)
create_hpa-IsEnsured done done o template c h = (
  (refl, refl, refl),
  inl (refl, same-has_hpa (template_key o template) (created_hpa template) c.hpas),
)
create_hpa-IsEnsured done refused o template c h = ((refl, refl, refl), inr (refl, h refl))
create_hpa-IsEnsured refused done o template c h = ((refl, refl, refl), inr (refl, h refl))
create_hpa-IsEnsured refused refused o template c h = ((refl, refl, refl), inr (refl, h refl))

ensure_hpa_from_template-IsEnsured :
    {R : Type 0} (reply own create : Reply) (o : Object) (template : Template) (c : Cluster)
    → ((is_refused reply || is_refused own || is_refused create) ≡ true → R)
    → IsEnsured R o (some template) c (ensure_hpa_from_template reply own create o template c)
unfolding ensure_hpa_from_template
ensure_hpa_from_template-IsEnsured refused own create o template c h =
    ((refl, refl, refl), inr (refl, h refl))
ensure_hpa_from_template-IsEnsured done own create o template c h =
    elim (Bool-cases (has_hpa (template_key o template) c.hpas)) [
      | inl e ↦ rw e ((refl, refl, refl), inl (refl, e))
      | inr e ↦ rw e (create_hpa-IsEnsured own create o template c h)
    ]

pub ensure_template-IsEnsured :
    (replies : Replies) (o : Object) (c : Cluster) (template : Option Template)
    → IsEnsured (some_refused replies ≡ true) o template c (ensure_template replies o c template)
ensure_template-IsEnsured replies o c none = ((refl, refl, refl), inl (refl, tt))
ensure_template-IsEnsured replies o c (some template) =
    ensure_hpa_from_template-IsEnsured replies.to_get_template replies.to_own replies.to_create o
      template c (λ h. grind arith)

abbrev pub IsFound : Type 0 → Object → List (Key × Hpa) → Bool → Type 0
IsFound R o hpas b =
    ((b ≡ true) × HoldsReference o hpas) ⊎ ((b ≡ false) × (R ⊎ MissesReference o hpas))

found_lem :
    {R : Type 0} (reply : Reply) (o : Object) (hpas : List (Key × Hpa)) (r : HpaObjectReference)
    → (is_refused reply ≡ true → R)
    → o.spec.hpa_object_ref ≡ some r
    → IsFound R o hpas (is_found reply (has_hpa (reference_key o r) hpas))
found_lem refused o hpas r h e = inr (refl, inl (h refl))
found_lem done o hpas r h e = elim (Bool-cases (has_hpa (reference_key o r) hpas)) [
  | inl there ↦ inl (there, λ s k. inr cc)
  | inr missing ↦ inr (missing, inr (r, e, missing))
]

pub is_valid_reference-IsFound :
    {R : Type 0} (reply : Reply) (o : Object) (hpas : List (Key × Hpa))
    (reference : Option HpaObjectReference)
    → (is_refused reply ≡ true → R)
    → o.spec.hpa_object_ref ≡ reference
    → IsFound R o hpas (is_valid_reference reply o hpas reference)
is_valid_reference-IsFound reply o hpas none h e = inl (refl, λ s k. cc)
is_valid_reference-IsFound reply o hpas (some r) h e = elim (Bool-cases (str_eq r.name "")) [
  | inl empty ↦ rw empty (inl (refl, λ s k. let n = (eq_iff r.name "").0 empty in inl cc))
  | inr named ↦ rw named (found_lem reply o hpas r h e)
]
