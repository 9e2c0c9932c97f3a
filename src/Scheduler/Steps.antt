-- ===== src/Scheduler/Steps.antt =====
-- internal/scheduler/scheduler.go: what a context can become, by its callbacks in any order and at any
-- times, answered by the API server in any way, and by others that change the autoscaler.
use mathlib.Core.Path.{subst}
use smart_hpa.Prelude.{ℕ, ◌≡◌, inl, inr, String, List, [], ◌∷◌, ◌++◌, Option, Any}
use smart_hpa.Scheduler.{Trigger, Times}
use smart_hpa.Scheduler.Context.{Hpa, Context, Reply, on_start, on_end, execute}
use smart_hpa.Scheduler.Sane.{IsSane}
use smart_hpa.Scheduler.Kept.{
  IsConsistent, on_start-IsConsistent, on_end-IsConsistent, execute-IsConsistent,
}

-- A step of a context. Go's maps are read in any order, so two neighbours may change places.
pub data Step (times : Times) : Context → Context → Type 0 where
  swapped :
      (c : Context) (ts us : List Trigger) (t u : Trigger)
      → c.schedules ≡ ts ++ (t ∷ u ∷ us)
      → Step times c (record c { schedules = ts ++ (u ∷ t ∷ us) })
  started :
      (c : Context) (now : ℕ) (reply : Reply) (t : Trigger)
      → Any (λ u. u ≡ t) c.schedules
      → Step times c (on_start times now reply t c)
  ended :
      (c : Context) (now : ℕ) (reply : Reply) (t : Trigger)
      → Any (λ u. u ≡ t) c.schedules
      → Step times c (on_end times now reply t c)
  executed :
      (c : Context) (now : ℕ) (replies : String → Reply)
      → Step times c (execute times now replies c)
  changed : (c : Context) (hpa : Option Hpa) → IsSane hpa → Step times c (record c { hpa = hpa })

pub data Reach (times : Times) (c : Context) : Context → Type 0 where
  here : Reach times c c
  next : {d e : Context} → Reach times c d → Step times d e → Reach times c e

Any-swapped :
    (P : Trigger → Type 0) (ts us : List Trigger) (t u : Trigger)
    → Any P (ts ++ (t ∷ u ∷ us))
    → Any P (ts ++ (u ∷ t ∷ us))
Any-swapped P [] us t u (inl h) = inr (inl h)
Any-swapped P [] us t u (inr (inl h)) = inl h
Any-swapped P [] us t u (inr (inr h)) = inr (inr h)
Any-swapped P (s ∷ ts) us t u (inl h) = inl h
Any-swapped P (s ∷ ts) us t u (inr h) = inr (Any-swapped P ts us t u h)

Step-IsConsistent :
    (times : Times) {c d : Context} → Step times c d → IsConsistent c → IsConsistent d
Step-IsConsistent times (swapped c ts us t u e) h = (
  h.0,
  elim h.1 [
    | inl nothing ↦ inl nothing
    | inr m ↦ inr (
        Any-swapped (λ v. v.name ≡ c.active_trigger_name) ts us t u
          (subst (Any (λ v. v.name ≡ c.active_trigger_name)) e m))
  ],
)
Step-IsConsistent times (started c now reply t m) h = on_start-IsConsistent times now reply t c m h
Step-IsConsistent times (ended c now reply t m) h = on_end-IsConsistent times now reply t c h
Step-IsConsistent times (executed c now replies) h = execute-IsConsistent times now replies c h
Step-IsConsistent times (changed c hpa s) h = (s, h.1)

-- From a context whose autoscaler, if it is there, has at least one replica at most and no more at least
-- than that, and whose active trigger, if there is one, is one of its schedules, each sequence of steps
-- leads to such a context.
pub Reach-IsConsistent :
    (times : Times) (c d : Context) → IsConsistent c → Reach times c d → IsConsistent d
Reach-IsConsistent times c _ h here = h
Reach-IsConsistent times c _ h (next r s) =
    Step-IsConsistent times s (Reach-IsConsistent times c _ h r)
