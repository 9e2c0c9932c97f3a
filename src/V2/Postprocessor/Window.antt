-- ===== src/V2/Postprocessor/Window.antt =====
-- The time window of a trigger.
use Prim.Native.Nat.{min, max}
use mathlib.Core.List.{foldl}
use smart_hpa.Prelude.{
  foldl-min, foldl-max, sym, ◌∙◌, All-and, All-Any, ltb, if◌then◌else◌, ℕ, ◌+◌, ◌≤◌, ◌<◌, ◌≡◌, refl,
  ◌⊎◌, inl, inr, List, [], ◌∷◌, All, Any, Any-imp, ok, arith,
}
use smart_hpa.V2.Postprocessor.{window}

foldl-max-le : (n acc : ℕ) (xs : List ℕ) → acc ≤ n → All (λ h. h ≤ n) xs → foldl max acc xs ≤ n
foldl-max-le n acc [] h a = h
foldl-max-le n acc (x ∷ xs) h a = foldl-max-le n (max acc x) xs (omega arith) a.1

-- A trigger from `start` to `stop` over the active hours `hours`.
pub record IsWindow (hours : List ℕ) (start stop : ℕ) : Type 0 where
  pub inside : All (λ h. (start ≤ h) × ((h < stop) ⊎ (h ≡ 23) × (stop ≡ 23))) hours
  pub starts : Any (λ h. h ≡ start) hours
  -- The end is the hour after an active one, or 23 where 23 is active: with `inside`, after the last.
  pub ends : Any (λ h. ((h ≡ 23) × (stop ≡ 23)) ⊎ (stop ≡ h + 1)) hours
  pub stops : stop ≤ 23

min-cases : (a b : ℕ) → (min a b ≡ a) ⊎ (min a b ≡ b)
min-cases a b = omega arith

foldl-min-Any :
    (acc : ℕ) (xs : List ℕ) → (foldl min acc xs ≡ acc) ⊎ Any (λ h. h ≡ foldl min acc xs) xs
foldl-min-Any acc [] = inl refl
foldl-min-Any acc (x ∷ xs) = elim (foldl-min-Any (min acc x) xs) [
  | inl e ↦ elim (min-cases acc x) [ inl k ↦ inl (e ∙ k) | inr k ↦ inr (inl (sym (e ∙ k))) ]
  | inr m ↦ inr (inr m)
]

max-cases : (a b : ℕ) → (max a b ≡ a) ⊎ (max a b ≡ b)
max-cases a b = omega arith

foldl-max-Any :
    (acc : ℕ) (xs : List ℕ) → (foldl max acc xs ≡ acc) ⊎ Any (λ h. h ≡ foldl max acc xs) xs
foldl-max-Any acc [] = inl refl
foldl-max-Any acc (x ∷ xs) = elim (foldl-max-Any (max acc x) xs) [
  | inl e ↦ elim (max-cases acc x) [ inl k ↦ inl (e ∙ k) | inr k ↦ inr (inl (sym (e ∙ k))) ]
  | inr m ↦ inr (inr m)
]

ends_after :
    (h last : ℕ)
    → last ≤ 23
    → h ≡ last
    → let stop = if ltb 23 (last + 1) then 23 else last + 1 in
      ((h ≡ 23) × (stop ≡ 23)) ⊎ (stop ≡ h + 1)
ends_after h last top e = ground arith

-- A pattern with active hours, all of them hours of a day, gets a window on one day: it begins at the
-- first active hour, it contains each active hour, and its end is the hour after the last one, cut to 23.
pub window-IsWindow :
    (x : ℕ) (xs : List ℕ)
    → All (λ h. h ≤ 23) (x ∷ xs)
    → (start stop : ℕ) × (window (x ∷ xs) ≡ ok (start, stop)) × IsWindow (x ∷ xs) start stop
unfolding window
window-IsWindow x xs a =
    let last = foldl max x xs in
    let (low, lows) = foldl-min x xs in
    let (high, highs) = foldl-max x xs in
    let top : last ≤ 23 = foldl-max-le 23 x xs a.0 a.1 in
    (
      foldl min x xs,
      (if ltb 23 (last + 1) then 23 else last + 1),
      refl,
      record {
        inside = ((low, ground arith), All-and (λ h l u. (l, ground arith)) xs lows highs);
        starts = elim (foldl-min-Any x xs) [ inl e ↦ inl (sym e) | inr m ↦ inr m ];
        ends =
            Any-imp (λ h e. ends_after h last top e) (x ∷ xs)
              (elim (foldl-max-Any x xs) [ inl e ↦ inl (sym e) | inr m ↦ inr m ]);
        stops = ground arith;
      },
    )

-- A pattern that is active at hour 0 and at hour 23, and otherwise at any hours of the day, gets the
-- window from 0 to 23.
pub window_wraps :
    (hours : List ℕ)
    → All (λ h. h ≤ 23) hours
    → Any (λ h. h ≡ 0) hours
    → Any (λ h. h ≡ 23) hours
    → window hours ≡ ok (0, 23)
unfolding window
window_wraps [] a z t = elim z [ ]
window_wraps (x ∷ xs) a z t =
    let (low, lows) = foldl-min x xs in
    let (high, highs) = foldl-max x xs in
    let top : foldl max x xs ≤ 23 = foldl-max-le 23 x xs a.0 a.1 in
    let bottom : foldl min x xs ≤ 0 =
      All-Any {P = λ h. foldl min x xs ≤ h} (λ h l e. omega arith) (x ∷ xs) (low, lows) z in
    let late : 23 ≤ foldl max x xs =
      All-Any {P = λ h. h ≤ foldl max x xs} (λ h l e. omega arith) (x ∷ xs) (high, highs) t in
    ground arith
