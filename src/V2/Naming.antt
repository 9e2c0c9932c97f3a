-- ===== src/V2/Naming.antt =====
-- ml/v2/postprocessor.py: the texts of a trigger, made of its hours and days.
use smart_hpa.Prelude.{
  ℕ, Bool, true, false, ◌&&◌, ◌||◌, String, List, [], ◌∷◌, get_elem?, none, some, Result, ok, raise,
  key_error, ◌>>=◌, traverse, ltb, leb, ◌==◌, if◌then◌else◌, range,
}
use smart_hpa.Prelude.Text.{concat, join, two_digits}
use smart_hpa.Prelude.Sort.{sorted}

-- `DAY_NAMES[d]`
unfoldable pub day_name : ℕ → Result String
day_name d = elim (get_elem? {A = String} ("M" ∷ "TU" ∷ "W" ∷ "TH" ∷ "F" ∷ "SAT" ∷ "SUN" ∷ []) d) [
  | some name ↦ ok name
  | none ↦ raise key_error
]

-- `xs == ys`
abbrev pub same_numbers : List ℕ → List ℕ → Bool
same_numbers [] [] = true
same_numbers (x ∷ xs) (y ∷ ys) = (x == y) && same_numbers xs ys
same_numbers _ _ = false

-- `f"{hour:02d}:00:00"`
unfoldable pub hour_text : ℕ → String
unfolding concat two_digits
hour_text hour = concat (two_digits hour ∷ ":00:00" ∷ [])

-- `",".join(DAY_NAMES[d] for d in sorted(days))`
unfoldable pub recurring_text : List ℕ → Result String
unfolding day_name join sorted
recurring_text days = do
  names ← traverse day_name (sorted (λ x y. ltb y x) days)
  ok (join "," names)

unfoldable pub day_context : List ℕ → String
day_context days =
    if same_numbers days (5 ∷ 6 ∷ [])
    then "weekend"
    else if same_numbers days (range 0 5)
    then "weekday"
    else "custom"

unfoldable pub time_context : ℕ → String
time_context hour =
    if leb 22 hour || ltb hour 6
    then "night"
    else if ltb hour 9
    then "morning"
    else if ltb hour 12
    then "late-morning"
    else if ltb hour 17
    then "afternoon"
    else "evening"
