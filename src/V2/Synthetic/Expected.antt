-- ===== src/V2/Synthetic/Expected.antt =====
-- `get_expected_patterns` is the truth about the generated data: which pattern a time belongs to.
use Prim.Native.Nat.{zero, suc}
use smart_hpa.Prelude.{range, ◌++◌, ℕ, ◌+◌, List, [], ◌∷◌, leb}
use smart_hpa.Float.{Float}
use smart_hpa.Clock.{hour, weekday}
use smart_hpa.V2.Synthetic.{SyntheticConfig, is_peak_hour}
use smart_hpa.Prelude.{
  range_from, lt_or_le, ◌-◌, Any, ◌↔◌, ◌≡◌, true, false, ◌<◌, ◌≤◌, arith, ◌⊎◌, inl, inr,
  Any-of_append, Any-append,
}
use smart_hpa.V2.Synthetic.Output.{ExpectedPattern, get_expected_patterns}

abbrev pub Member : ℕ → List ℕ → Type 0
Member x xs = Any (λ y. y ≡ x) xs

Member-range_from : (x a n : ℕ) → Member x (range_from a n) ↔ ((a ≤ x) × (x < a + n))
Member-range_from x a zero = (λ m. elim m [ ], λ h. absurd (omega arith))
Member-range_from x a (suc n) =
    let (to, from) = Member-range_from x (a + 1) n in
    (
      λ m. elim m [ inl e ↦ omega arith | inr later ↦ let (l, u) = to later in omega arith ],
      λ h. elim (lt_or_le a x) [
        | inl below ↦ inr (from (omega arith))
        | inr reached ↦ inl (omega arith)
      ],
    )

Member-range : (x a b : ℕ) → Member x (range a b) ↔ ((a ≤ x) × (x < b))
Member-range x a b =
    let (to, from) = Member-range_from x a (b - a) in
    (λ m. let (l, u) = to m in omega arith, λ h. from (omega arith))

Member-weekdays : (d : ℕ) → Member d (0 ∷ 1 ∷ 2 ∷ 3 ∷ 4 ∷ []) ↔ (d < 5)
Member-weekdays d =
    let (to, from) = Member-range d 0 5 in (λ m. (to m).1, λ h. from (omega arith, h))

Member-weekend : (t : ℕ) → Member (weekday t) (5 ∷ 6 ∷ []) ↔ (5 ≤ weekday t)
Member-weekend t =
    let (to, from) = Member-range (weekday t) 5 7 in (λ m. (to m).0, λ h. from (h, omega arith))

-- The hour and the day of the time are among those of the pattern.
abbrev pub IsDuring : {F : Type 0} → ℕ → ExpectedPattern F → Type 0
IsDuring ts p = Member (hour ts) p.hours × Member (weekday ts) p.days

-- The hours in front of the peak and behind it.
Member-outside : (h a b : ℕ) → Member h (range 0 a ++ range b 24) ↔ ((h < a) ⊎ ((b ≤ h) × (h < 24)))
Member-outside h a b = (
  λ m. elim (Any-of_append (λ y. y ≡ h) (range 0 a) (range b 24) m) [
    | inl early ↦ inl ((Member-range h 0 a).0 early).1
    | inr late ↦ inr ((Member-range h b 24).0 late)
  ],
  λ o.
      Any-append (λ y. y ≡ h) (range 0 a) (range b 24)
        (elim o [
          | inl early ↦ inl ((Member-range h 0 a).1 (omega arith, early))
          | inr late ↦ inr ((Member-range h b 24).1 late)
        ]),
)

not_peak_iff :
    {F : Type 0} (config : SyntheticConfig F) (ts : ℕ)
    → ((is_peak_hour config ts ≡ false) × (leb 5 (weekday ts) ≡ false)) ↔ (
        ((hour ts < config.peak_start_hour) ⊎ ((config.peak_end_hour ≤ hour ts) × (hour ts < 24)))
        × (weekday ts < 5))
unfolding is_peak_hour
not_peak_iff config ts = let below : hour ts < 24 = omega arith in ground (arith, below)

is_peak_hour_iff :
    {F : Type 0} (config : SyntheticConfig F) (ts : ℕ)
    → (is_peak_hour config ts ≡ true)
      ↔ ((weekday ts < 5) × (config.peak_start_hour ≤ hour ts) × (hour ts < config.peak_end_hour))
unfolding is_peak_hour
is_peak_hour_iff config ts = ground arith

-- Every time is in exactly one of the expected patterns, the one of its kind: the generator takes it
-- as a peak hour just if its hour and day are those of the peak pattern, as a time at the weekend just
-- if they are those of the weekend pattern, and otherwise just if they are those of the off-peak one.
pub get_expected_patterns_lem :
    {F : Type 0} ⦃f : Float F⦄ (config : SyntheticConfig F) (ts : ℕ)
    → ((is_peak_hour config ts ≡ true) ↔ IsDuring ts (get_expected_patterns config).peak)
      × ((leb 5 (weekday ts) ≡ true) ↔ IsDuring ts (get_expected_patterns config).weekend)
      × (((is_peak_hour config ts ≡ false) × (leb 5 (weekday ts) ≡ false))
          ↔ IsDuring ts (get_expected_patterns config).off_peak)
unfolding get_expected_patterns
get_expected_patterns_lem config ts =
    let (peak_to, peak_from) = is_peak_hour_iff config ts in
    let (week_to, week_from) = Member-weekdays (weekday ts) in
    let (end_to, end_from) = Member-weekend ts in
    let (hours_to, hours_from) =
      Member-range (hour ts) config.peak_start_hour config.peak_end_hour in
    let (out_to, out_from) = not_peak_iff config ts in
    let (around_to, around_from) =
      Member-outside (hour ts) config.peak_start_hour config.peak_end_hour in
    (
      (
        λ e. let (d, l, u) = peak_to e in (hours_from (l, u), week_from d),
        λ m. let (l, u) = hours_to m.0 in peak_from (week_to m.1, l, u),
      ),
      (
        λ e. (
          (Member-range (hour ts) 0 24).1 (omega arith, omega arith),
          end_from (ground (arith, e)),
        ),
        λ m. let late = end_to m.1 in ground arith,
      ),
      (
        λ e. let (o, d) = out_to e in (around_from o, week_from d),
        λ m. out_from (around_to m.0, week_to m.1),
      ),
    )
