-- ===== src/Scheduler/Rivals.antt =====
-- internal/scheduler/scheduler.go: the other triggers that are active.
use smart_hpa.Prelude.{
  ℕ, ◌≡◌, refl, ◌⊎◌, inl, inr, Bool, true, false, List, [], ◌∷◌, filter, Option, none, some, All,
  Any, Bool-cases, if◌then◌else◌, arith,
}
use smart_hpa.Prelude.Int.{ℤ, ◌≤ℤ◌, ◌<ℤ◌, ltb_ℤ}
use smart_hpa.Prelude.Text.{str_eq}
use smart_hpa.Scheduler.{
  Trigger, Times, get_priority, window_state, need_recurring, is_within_time_window,
}
use smart_hpa.Scheduler.Context.{is_within, is_active, has_higher_priority_active}

pub ltb_ℤ-above : (a b : ℤ) → ltb_ℤ a b ≡ true → a <ℤ b
ltb_ℤ-above a b e = ground arith

pub ltb_ℤ-below : (a b : ℤ) → ltb_ℤ a b ≡ false → b ≤ℤ a
ltb_ℤ-below a b e = ground arith

module _ {A : Type 0} (p : A → Bool) where
  All-of_kept :
      (P : A → Type 0) (x : A) (xs ys : List A) (b : Bool)
      → p x ≡ b
      → All P (if b then x ∷ ys else ys)
      → (All P ys → All (λ y. p y ≡ true → P y) xs)
      → All (λ y. p y ≡ true → P y) (x ∷ xs)
  All-of_kept P x xs ys true e h k = ((λ t. h.0), k h.1)
  All-of_kept P x xs ys false e h k = ((λ t. cc), k h)

  pub All-of_filter :
      (P : A → Type 0) (xs : List A) → All P (filter p xs) → All (λ x. p x ≡ true → P x) xs
  All-of_filter P [] h = tt
  All-of_filter P (x ∷ xs) h =
      All-of_kept P x xs (filter p xs) (p x) refl h (λ k. All-of_filter P xs k)

  Any-of_kept :
      (P : A → Type 0) (x : A) (xs ys : List A) (b : Bool)
      → p x ≡ b
      → Any P (if b then x ∷ ys else ys)
      → (Any P ys → Any (λ y. (p y ≡ true) × P y) xs)
      → Any (λ y. (p y ≡ true) × P y) (x ∷ xs)
  Any-of_kept P x xs ys true e (inl h) k = inl (e, h)
  Any-of_kept P x xs ys true e (inr h) k = inr (k h)
  Any-of_kept P x xs ys false e h k = inr (k h)

  pub Any-of_filter :
      (P : A → Type 0) (xs : List A) → Any P (filter p xs) → Any (λ x. (p x ≡ true) × P x) xs
  Any-of_filter P [] h = elim h [ ]
  Any-of_filter P (x ∷ xs) h =
      Any-of_kept P x xs (filter p xs) (p x) refl h (λ k. Any-of_filter P xs k)

module _ (times : Times) (now : ℕ) where
  -- Another trigger, which is active.
  abbrev pub IsRival : Trigger → Trigger → Type 0
  IsRival t u = (str_eq u.name t.name ≡ false) × (is_active times now u ≡ true)

  pub has_higher_lem :
      (t : Trigger) (us : List Trigger)
      → ((has_higher_priority_active times now t us ≡ true)
          × Any (λ u. IsRival t u × (get_priority t <ℤ get_priority u)) us)
        ⊎ ((has_higher_priority_active times now t us ≡ false)
            × All (λ u. IsRival t u → get_priority u ≤ℤ get_priority t) us)
  unfolding has_higher_priority_active
  has_higher_lem t [] = inr (refl, tt)
  has_higher_lem t (u ∷ us) = elim (Bool-cases (str_eq u.name t.name)) [
    | inl same ↦ elim (has_higher_lem t us) [
      | inl h ↦ rw same (inl (h.0, inr h.1))
      | inr h ↦ rw same (inr (h.0, ((λ r. cc), h.1)))
    ]
    | inr other ↦ elim (Bool-cases (is_active times now u)) [
      | inr idle ↦ elim (has_higher_lem t us) [
        | inl h ↦ rw (other, idle) (inl (h.0, inr h.1))
        | inr h ↦ rw (other, idle) (inr (h.0, ((λ r. cc), h.1)))
      ]
      | inl active ↦ elim (Bool-cases (ltb_ℤ (get_priority t) (get_priority u))) [
        | inl above ↦
            rw (other, active, above)
              (inl (refl, inl ((refl, refl), ltb_ℤ-above (get_priority t) (get_priority u) above)))
        | inr below ↦ elim (has_higher_lem t us) [
          | inl h ↦ rw (other, active, below) (inl (h.0, inr h.1))
          | inr h ↦
              rw (other, active, below)
                (inr (h.0, ((λ r. ltb_ℤ-below (get_priority t) (get_priority u) below), h.1)))
        ]
      ]
    ]
  ]

  window_state-needed :
      (current : ℕ) (needed : Bool) (a b : Option ℕ)
      → is_within (window_state current needed a b) ≡ true
      → needed ≡ true
  window_state-needed current needed none b h = cc
  window_state-needed current needed (some a) none h = cc
  window_state-needed current true (some a) (some b) h = refl
  window_state-needed current false (some a) (some b) h = h

  pub active-needed :
      (u : Trigger) → is_active times now u ≡ true → need_recurring times now u ≡ true
  unfolding is_within_time_window
  active-needed u h = window_state-needed _ (need_recurring times now u) _ _ h
