-- ===== src/Clock/Ticks.antt =====
-- The loop over the times of the sample data: where it ends, and what it collects.
use smart_hpa.Prelude.{
  All, ap, ◌∙◌, ℕ, zero, suc, ◌+◌, ◌*◌, ◌≤◌, ◌<◌, ◌≡◌, refl, List, [], ◌∷◌, none, some, ok,
  lt_or_le, inl, inr, arith,
}
use smart_hpa.Clock.{ticks, add_delta, prepend}

-- `n` times, `step` apart.
abbrev pub progression : ℕ → ℕ → ℕ → List ℕ
progression zero step start = []
progression (suc n) step start = start ∷ progression n step (start + step)

-- The `n` times from `start` on are all those in front of `end`.
abbrev pub IsCount : ℕ → ℕ → ℕ → ℕ → Type 0
IsCount end step start n = (end ≤ start + n * step) × ((k : ℕ) → k < n → start + k * step < end)

ticks_next :
    (fuel end step current : ℕ)
    → current < end
    → end + step ≤ 315_537_897_600_000_000
    → ticks (suc fuel) end step current ≡ prepend current (ticks fuel end step (current + step))
unfolding ticks add_delta
ticks_next fuel end step current h k = ground arith

ticks_end :
    (fuel end step current : ℕ) → end ≤ current → ticks (suc fuel) end step current ≡ some (ok [])
unfolding ticks
ticks_end fuel end step current h = ground arith

one_more :
    (n end step current : ℕ)
    → current < end
    → ((k : ℕ) → k < n → current + step + k * step < end)
    → (k : ℕ) → k < suc n
    → current + k * step < end
one_more n end step current h below zero b = omega arith
one_more n end step current h below (suc k) b = omega (arith, below k (omega arith))

-- If a step takes one unit or more, one turn of the loop for each unit between the start and the end,
-- and one more, is enough.
pub ticks-progression :
    (unit fuel end step current : ℕ)
    → unit ≤ step
    → 0 < unit
    → end + step ≤ 315_537_897_600_000_000
    → end ≤ current + fuel * unit
    → (n : ℕ) × IsCount end step current n
      × (ticks (suc fuel) end step current ≡ some (ok (progression n step current)))
ticks-progression unit zero end step current u p l f =
    (0, (omega arith, λ k h. absurd (omega arith)), ticks_end 0 end step current (omega arith))
ticks-progression unit (suc fuel) end step current u p l f = elim (lt_or_le current end) [
  | inl more ↦
      let (n, (above, below), e) =
        ticks-progression unit fuel end step (current + step) u p l (grind arith) in
      (
        suc n,
        (grind arith, one_more n end step current more below),
        ticks_next (suc fuel) end step current more l ∙ ap (prepend current) e,
      )
  | inr done ↦
      (0, (omega arith, λ k h. absurd (omega arith)), ticks_end (suc fuel) end step current done)
]

-- Without a step, the loop from a time in front of its end never ends: no fuel is enough.
pub ticks_endless :
    (fuel end current : ℕ)
    → current < end
    → end ≤ 315_537_897_600_000_000
    → ticks fuel end 0 current ≡ none
ticks_endless zero end current h l = unfold ticks in refl
ticks_endless (suc fuel) end current h l =
    let same : current + 0 ≡ current = omega arith in
    ticks_next fuel end 0 current h (omega arith)
    ∙ rw (same, ticks_endless fuel end current h l) refl

-- What holds of all times from the start to the end.
pub progression-All :
    (P : ℕ → Type 0) (n step start end : ℕ)
    → ((t : ℕ) → start ≤ t → t < end → P t)
    → ((k : ℕ) → k < n → start + k * step < end)
    → All P (progression n step start)
progression-All P zero step start end h below = tt
progression-All P (suc n) step start end h below = (
  h start (omega arith) (omega (arith, below 0 (omega arith))),
  progression-All P n step (start + step) end (λ t a b. h t (omega arith) b)
      λ k b. omega (arith, below (suc k) (omega arith)),
)
