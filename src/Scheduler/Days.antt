-- ===== src/Scheduler/Days.antt =====
-- The days of a trigger: the text that ml/v2/postprocessor.py writes, as NeedRecurring of
-- api/v1alpha1/smarthorizontalpodautoscaler_types.go reads it.
use Prim.Native.Nat.{zero, suc}
use smart_hpa.Prelude.{
  ℕ, ◌+◌, ◌%◌, ◌<◌, ◌≡◌, refl, ◌↔◌, inl, inr, true, false, String, List, [], ◌∷◌, map, length, ltb,
  ◌≤◌, get_elem?, All, Any, ok, traverse, ◌==◌, ==_iff, Bool-cases, arith,
}
use smart_hpa.Prelude.Sort.{sorted, length-sorted, All-sorted, Any-sorted, Any-of_sorted}
use smart_hpa.Prelude.Text.{join, str_eq}
use smart_hpa.Prelude.Text.Split.{split, trim_space, lacks, is_blank, split-join, split-nonempty}
use smart_hpa.V2.Naming.{day_name, recurring_text}
use smart_hpa.Scheduler.{weekday_short, day_or_empty, has_day}

-- The name of the scheduler for a day that counts from Monday.
abbrev pub short : ℕ → String
short d = day_or_empty (get_elem? weekday_short ((d + 1) % 7))

pub week_cases : (P : ℕ → Type 0) → P 0 → P 1 → P 2 → P 3 → P 4 → P 5 → P 6 → (d : ℕ) → d < 7 → P d
week_cases P a b c e f g h zero l = a
week_cases P a b c e f g h (suc zero) l = b
week_cases P a b c e f g h (suc (suc zero)) l = c
week_cases P a b c e f g h (suc (suc (suc zero))) l = e
week_cases P a b c e f g h (suc (suc (suc (suc zero)))) l = f
week_cases P a b c e f g h (suc (suc (suc (suc (suc zero))))) l = g
week_cases P a b c e f g h (suc (suc (suc (suc (suc (suc zero)))))) l = h
week_cases P a b c e f g h (suc (suc (suc (suc (suc (suc (suc n))))))) l = absurd (omega arith)

-- Both sides have the same names.
day_name_lem : (d : ℕ) → d < 7 → day_name d ≡ ok (short d)
unfolding day_name
day_name_lem = week_cases (λ d. day_name d ≡ ok (short d)) refl refl refl refl refl refl refl

short-plain : (d : ℕ) → d < 7 → (lacks b',' (short d) ≡ true) × (trim_space (short d) ≡ short d)
short-plain =
    week_cases (λ d. (lacks b',' (short d) ≡ true) × (trim_space (short d) ≡ short d)) (refl, refl)
      (refl, refl) (refl, refl) (refl, refl) (refl, refl) (refl, refl) (refl, refl)

abbrev Agrees : ℕ → ℕ → Type 0
Agrees a b = str_eq (short a) (short b) ≡ (a == b)

-- No two days have the same name.
short-eq : (a : ℕ) → a < 7 → (b : ℕ) → b < 7 → Agrees a b
short-eq =
    week_cases (λ a. (b : ℕ) → b < 7 → Agrees a b)
      (week_cases (Agrees 0) refl refl refl refl refl refl refl)
      (week_cases (Agrees 1) refl refl refl refl refl refl refl)
      (week_cases (Agrees 2) refl refl refl refl refl refl refl)
      (week_cases (Agrees 3) refl refl refl refl refl refl refl)
      (week_cases (Agrees 4) refl refl refl refl refl refl refl)
      (week_cases (Agrees 5) refl refl refl refl refl refl refl)
      (week_cases (Agrees 6) refl refl refl refl refl refl refl)

pub names-traverse :
    (days : List ℕ) → All (λ d. d < 7) days → traverse day_name days ≡ ok (map short days)
names-traverse [] h = refl
names-traverse (d ∷ ds) h = rw (day_name_lem d h.0, names-traverse ds h.1) refl

names-plain :
    (days : List ℕ) → All (λ d. d < 7) days → All (λ s. lacks b',' s ≡ true) (map short days)
names-plain [] h = tt
names-plain (d ∷ ds) h = ((short-plain d h.0).0, names-plain ds h.1)

has_day_iff :
    (w : ℕ) (days : List ℕ)
    → w < 7
    → All (λ d. d < 7) days
    → (has_day (short w) (map short days) ≡ true) ↔ Any (λ d. d ≡ w) days
has_day_iff w [] l h = ((λ e. cc), (λ n. absurd n))
has_day_iff w (d ∷ ds) l h =
    let (to, from) = has_day_iff w ds l h.1 in
    rw ((short-plain d h.0).1, short-eq d h.0 w l)
      (elim (Bool-cases (d == w)) [
        | inl e ↦ rw e ((λ t. inl ((==_iff d w).0 e)), (λ m. refl))
        | inr e ↦ rw e (
          (λ t. inr (to t)),
          (λ m. elim m [ inl same ↦ absurd (grind (arith, ==_iff d w)) | inr later ↦ from later ]),
        )
      ])

short-nonempty : (d : ℕ) → d < 7 → is_blank (short d) ≡ false
short-nonempty = week_cases (λ d. is_blank (short d) ≡ false) refl refl refl refl refl refl refl

pub written :
    (days : List ℕ)
    → All (λ d. d < 7) days
    → 1 ≤ length days
    → (split b',' (join "," (map short days)) ≡ map short days)
      × (is_blank (join "," (map short days)) ≡ false)
written [] h n = absurd (omega arith)
written (d ∷ ds) h n =
    let parts = split-join "," (short d) (map short ds) (names-plain (d ∷ ds) h) in
    (
      parts,
      split-nonempty b',' (join "," (map short (d ∷ ds))) (short d) (map short ds) parts
          (short-nonempty d h.0),
    )

-- The days are read back: for days of a week, one at least, the text is written, it is not empty, and
-- today is found in it when it is one of them.
pub recurring_text_lem :
    (days : List ℕ) (w : ℕ)
    → All (λ d. d < 7) days
    → 1 ≤ length days
    → w < 7
    → (text : String) × (recurring_text days ≡ ok text)
      × (is_blank text ≡ false)
      × ((has_day (short w) (split b',' text) ≡ true) ↔ Any (λ d. d ≡ w) days)
unfolding recurring_text
recurring_text_lem days w h n l =
    let ds = sorted (λ x y. ltb y x) days in
    let inside : All (λ d. d < 7) ds = All-sorted (λ x y. ltb y x) (λ d. d < 7) days h in
    let size = length-sorted (λ x y. ltb y x) days in
    let (parts, full) = written ds inside (omega (arith, size)) in
    let (to, from) = has_day_iff w ds l inside in
    (
      join "," (map short ds),
      rw (names-traverse ds inside) refl,
      full,
      rw parts (
        (λ t. Any-of_sorted (λ x y. ltb y x) (λ d. d ≡ w) days (to t)),
        (λ m. from (Any-sorted (λ x y. ltb y x) (λ d. d ≡ w) days m)),
      ),
    )
