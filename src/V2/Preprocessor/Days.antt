-- ===== src/V2/Preprocessor/Days.antt =====
-- The buckets by day, and the grid and buckets that the loops start from.
use mathlib.Core.List.{append-nil}
use smart_hpa.Prelude.{
  ℕ, zero, suc, ◌<◌, ◌≡◌, refl, sym, ap, ◌∙◌, List, [], ◌∷◌, ◌++◌, length, All, get_or, ok, ◌==◌,
  if◌then◌else◌, arith,
}
use smart_hpa.V2.Preprocessor.{fill_days, empty_buckets, empty_grid}
use smart_hpa.V2.Preprocessor.Buckets.{
  IsGrid, bucket, push, append_to-push, length-modify, get_or-push, snoc_if,
}

-- The values of the samples of day `d`.
abbrev pub samples_of_day {ℓ} : {A : Type ℓ} → ℕ → List A → List ℕ → List A
samples_of_day d (v ∷ vs) (d' ∷ ds) =
    let rest = samples_of_day d vs ds in if d' == d then v ∷ rest else rest
samples_of_day d _ _ = []

pub empty_grid-IsGrid {ℓ} : (A : Type ℓ) → IsGrid (empty_grid {A = A} 7)
unfolding empty_grid empty_buckets
empty_grid-IsGrid A = (refl, (refl, (refl, (refl, (refl, (refl, (refl, (refl, tt))))))))

module _ {ℓ} {A : Type ℓ} where
  get_or-empty_buckets : (n h : ℕ) → get_or (empty_buckets {A = A} n) h [] ≡ []
  unfolding empty_buckets
  get_or-empty_buckets zero h = refl
  get_or-empty_buckets (suc n) zero = refl
  get_or-empty_buckets (suc n) (suc h) = get_or-empty_buckets n h

  bucket-empty_grid_any : (n d h : ℕ) → bucket (empty_grid {A = A} n) d h ≡ []
  unfolding empty_grid
  bucket-empty_grid_any zero d h = refl
  bucket-empty_grid_any (suc n) zero h = get_or-empty_buckets 24 h
  bucket-empty_grid_any (suc n) (suc d) h = bucket-empty_grid_any n d h

  pub bucket-empty_grid : (d h : ℕ) → bucket (empty_grid {A = A} 7) d h ≡ []
  bucket-empty_grid d h = bucket-empty_grid_any 7 d h

  -- If all days are below 7, the loop over the days returns, and each bucket grows by the values of
  -- its day.
  fill_days_from :
      (vs : List A) (ds : List ℕ) (buckets : List (List A))
      → All (λ d. d < 7) ds
      → length buckets ≡ 7
      → (filled : List (List A)) × (fill_days vs ds buckets ≡ ok filled)
        × (length filled ≡ 7)
        × ((d : ℕ) → get_or filled d [] ≡ get_or buckets d [] ++ samples_of_day d vs ds)
  unfolding fill_days
  fill_days_from [] ds buckets dl e = (buckets, refl, e, λ d. sym (append-nil _))
  fill_days_from (v ∷ vs) [] buckets dl e = (buckets, refl, e, λ d. sym (append-nil _))
  fill_days_from (v ∷ vs) (d ∷ ds) buckets dl e =
      let lt : d < length buckets = omega (arith, dl.0) in
      let (filled, fe, len, all) =
        fill_days_from vs ds (push v d buckets) dl.1
          (length-modify (λ b. b ++ (v ∷ [])) buckets d ∙ e) in
      (
        filled,
        rw (append_to-push v buckets d lt) fe,
        len,
        λ d'.
            all d'
            ∙ ap (λ b. b ++ samples_of_day d' vs ds) (get_or-push v buckets d d' lt)
            ∙ snoc_if (d == d') v (get_or buckets d' []) (samples_of_day d' vs ds),
      )

  pub fill_days_lem :
      (vs : List A) (ds : List ℕ)
      → All (λ d. d < 7) ds
      → (filled : List (List A)) × (fill_days vs ds (empty_buckets 7) ≡ ok filled)
        × (length filled ≡ 7)
        × ((d : ℕ) → get_or filled d [] ≡ samples_of_day d vs ds)
  unfolding empty_buckets
  fill_days_lem vs ds dl =
      let (filled, fe, len, all) = fill_days_from vs ds (empty_buckets 7) dl refl in
      (
        filled,
        fe,
        len,
        λ d. all d ∙ ap (λ b. b ++ samples_of_day d vs ds) (get_or-empty_buckets 7 d),
      )
