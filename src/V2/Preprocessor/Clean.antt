-- ===== src/V2/Preprocessor/Clean.antt =====
-- `_clean_data`: what it guarantees of the values, and what it does to their places.
use smart_hpa.Prelude.{
  ◌≡◌, refl, Bool, true, false, List, [], ◌∷◌, map, filter, All, All-filter, if◌then◌else◌,
}
use smart_hpa.Float.{Float}
use smart_hpa.V2.Preprocessor.{clean_data, in_range}

All-map {ℓ κ} :
    {A B : Type ℓ} {P : A → Type κ} (Q : B → Type κ) (g : A → B)
    → ((a : A) → P a → Q (g a))
    → (xs : List A) → All P xs
    → All Q (map g xs)
All-map Q g f [] h = tt
All-map Q g f (x ∷ xs) h = (f x h.0, All-map Q g f xs h.1)

module _ {F : Type 0} ⦃f : Float F⦄ where
  abbrev one : F
  one = f.literal 1 0

  abbrev pub at_least_one : F → F
  at_least_one v = f.maximum v (f.literal 1 0)

  abbrev pub stays : F → List F → F → Bool
  stays k vs = in_range k (f.mean vs) (f.std vs)

  clean_data_lem :
      (k : F) (vs : List F)
      → clean_data k vs
        ≡ map at_least_one (if f.lt (f.literal 0 0) (f.std vs) then filter (stays k vs) vs else vs)
  unfolding clean_data
  clean_data_lem k [] =
      elim (f.lt (f.literal 0 0) (f.std []))
        as (λ b. [] ≡ map at_least_one (if b then [] else [])) [ true ↦ refl | false ↦ refl ]
  clean_data_lem k (x ∷ xs) = refl

  -- No cleaned value is below 1, if no value is NaN and `np.maximum` of a number and 1 is at least 1.
  pub clean_data_ge_one :
      (k : F) (vs : List F)
      → ((v : F) → f.le v v ≡ true → f.le (f.literal 1 0) (f.maximum v (f.literal 1 0)) ≡ true)
      → All (λ v. f.le v v ≡ true) vs
      → All (λ v. f.le (f.literal 1 0) v ≡ true) (clean_data k vs)
  clean_data_ge_one k vs law h = rw (clean_data_lem k vs) (
      All-map (λ v. f.le (f.literal 1 0) v ≡ true) at_least_one law
        (if f.lt (f.literal 0 0) (f.std vs) then filter (stays k vs) vs else vs)
        (elim (f.lt (f.literal 0 0) (f.std vs))
          as (λ b. All (λ v. f.le v v ≡ true) (if b then filter (stays k vs) vs else vs)) [
            | true ↦ All-filter (λ v. f.le v v ≡ true) (stays k vs) vs h
            | false ↦ h
          ]))
