-- ===== src/V2/Synthetic/Reread.antt =====
-- What the file of `save_to_json` holds of a generated data set, as pairs of a time and a count.
use mathlib.Core.List.{zip, zip_with}
use smart_hpa.Prelude.{
  ℕ, zero, suc, ◌+◌, ◌*◌, ◌<◌, ◌≤◌, ◌≡◌, refl, ap, List, [], ◌∷◌, map, some, ok, traverse, All,
  Pairs, Each, Bool-cases, inl, inr, arith,
}
use smart_hpa.Prelude.Int.{ℤ, pos, negsuc, ◌≤ℤ◌, ≤ℤ_trans}
use smart_hpa.Float.{Float}
use smart_hpa.Host.{Host}
use smart_hpa.Clock.Ticks.{progression}
use smart_hpa.Json.{Json}
use smart_hpa.V2.Fetcher.{Client}
use smart_hpa.V2.Synthetic.{SyntheticConfig, is_peak_hour}
use smart_hpa.V2.Synthetic.Output.{saved_answer, saved_point, saved_data}
use smart_hpa.V2.Synthetic.Generate.{IsReplicaCount, least_at}
use smart_hpa.V2.Synthetic.Saved.{
  IsUtc, unix, written, json_point, read_count, response_of, points_of-json_point,
}
use smart_hpa.V2.Synthetic.RoundTrip.{IsSaved}

-- The times in the calendar from 1970 on.
abbrev pub IsTime : ℕ → Type 0
IsTime t = (62_135_596_800_000_000 ≤ t) × (t < 315_537_897_600_000_000)

pub progression-IsTime :
    (n step start end : ℕ)
    → 62_135_596_800_000_000 ≤ start
    → end ≤ 315_537_897_600_000_000
    → ((k : ℕ) → k < n → start + k * step < end)
    → All IsTime (progression n step start)
progression-IsTime zero step start end e l below = tt
progression-IsTime (suc n) step start end e l below = (
  (e, omega (arith, below 0 (omega arith))),
  progression-IsTime n step (start + step) end (omega arith) l
      λ k b. omega (arith, below (suc k) (omega arith)),
)

later_than :
    (t n step start : ℕ)
    → 62_135_596_800_000_000 ≤ t
    → t + 1_000_000 ≤ start
    → All (λ s. unix t < s) (map unix (progression n step start))
later_than t zero step start e l = tt
later_than t (suc n) step start e l =
    (omega arith, later_than t n step (start + step) e (omega arith))

-- Times a second or more apart.
pub progression_rises :
    (n step start : ℕ)
    → 62_135_596_800_000_000 ≤ start
    → 1_000_000 ≤ step
    → Pairs ◌<◌ (map unix (progression n step start))
progression_rises zero step start e l = tt
progression_rises (suc n) step start e l = (
  later_than start n step (start + step) e (omega arith),
  progression_rises n step (start + step) (omega arith) l,
)

above_zero :
    {F : Type 0} (config : SyntheticConfig F) (ts : ℕ) (count : ℤ)
    → pos 1 ≤ℤ config.peak_min_replicas
    → least_at config ts ≤ℤ count
    → pos 1 ≤ℤ count
above_zero config ts count o least = elim (Bool-cases (is_peak_hour config ts)) [
  | inl peak ↦
      let reached : config.peak_min_replicas ≤ℤ count = rw peak at least in
      ≤ℤ_trans (pos 1) config.peak_min_replicas count o reached
  | inr off ↦ let reached : pos 1 ≤ℤ count = rw off at least in reached
]

module _ {F : Type 0} {S : Type 0} ⦃f : Float F⦄ (client : Client F) (host : Host F S)
    (utc : IsUtc client host) where
  natural_count :
      (config : SyntheticConfig F) (ts : ℕ) (replicas : F)
      → pos 1 ≤ℤ config.peak_min_replicas
      → IsReplicaCount config ts replicas
      → (n : ℕ) × (replicas ≡ f.of_int (pos n)) × (0 < n) × (n ≤ 9_007_199_254_740_991)
  natural_count config ts replicas o (pos n, same, least, small) =
      let above = above_zero config ts (pos n) o least in
      (n, same, omega (arith, above), omega arith)
  natural_count config ts replicas o (negsuc n, same, least, small) =
      let above = above_zero config ts (negsuc n) o least in absurd (omega (arith, above))

  saved_points :
      (ps : List (ℕ × ℕ))
      → All (λ p. IsTime p.0) ps
      → All IsSaved ps
      → traverse (saved_point host) (zip (map (λ p. host.timestamp p.0) ps) (map read_count ps))
        ≡ ok (map json_point ps)
  unfolding zip zip_with saved_point
  saved_points [] t h = refl
  saved_points (p ∷ ps) t h =
      rw (utc.timestamp_law p.0 t.0.0 t.0.1, utc.int_law p.1 h.0.1, saved_points ps t.1 h.1) refl

  pub saved_data-written :
      (ps : List (ℕ × ℕ))
      → All (λ p. IsTime p.0) ps
      → All IsSaved ps
      → (saved : Json) × (saved_data host (map (λ p. host.timestamp p.0) ps) (map read_count ps)
          ≡ ok saved)
        × (response_of {F = F} saved
            ≡ some (record { status = "success"; result = map written ps ∷ [] }))
  unfolding saved_data
  saved_data-written ps t h = (
    saved_answer (map json_point ps),
    rw (saved_points ps t h) refl,
    rw (points_of-json_point ⦃f = f⦄ ps) refl,
  )

  -- The times and the counts of a data set, as pairs of numbers.
  pub pairs_of :
      (config : SyntheticConfig F) (times : List ℕ) (replicas : List F)
      → pos 1 ≤ℤ config.peak_min_replicas
      → All IsTime times
      → Each (IsReplicaCount config) times replicas
      → (ps : List (ℕ × ℕ)) × (map (λ p. p.0) ps ≡ times)
        × (map read_count ps ≡ replicas)
        × All IsSaved ps
  pairs_of config [] [] o t e = ([], refl, refl, tt)
  pairs_of config [] (r ∷ rs) o t e = elim e [ ]
  pairs_of config (x ∷ xs) [] o t e = elim e [ ]
  pairs_of config (x ∷ xs) (r ∷ rs) o t e =
      let (ps, times, counts, saved) = pairs_of config xs rs o t.1 e.1 in
      let (n, same, above, exact) = natural_count config x r o e.0 in
      (
        (x, n) ∷ ps,
        ap (λ ys. x ∷ ys) times,
        cc (same, counts),
        ((omega arith, omega arith, above), saved),
      )
