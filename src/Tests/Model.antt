-- ===== src/Tests/Model.antt =====
-- The model on data whose cells are all alike, where the night pattern and the off-peak pattern are
-- found besides the peak one.
use smart_hpa.Prelude.{
  ℕ, ◌≡◌, ◌<◌, refl, List, [], ◌∷◌, map, All, Pairs, Result, ok, raise, arith, zero, suc, index,
}
use smart_hpa.V2.Config.{peak, off_peak, night, weekend, model_config, PatternResult}
use smart_hpa.V2.Data.{cell}
use smart_hpa.V2.Preprocessor.{zeros}
use smart_hpa.V2.Model.{infer}
use smart_hpa.V2.Model.Detectors.{stage}
use smart_hpa.V2.Model.Patterns.{infer_lem, IsInferred}
use smart_hpa.V2.Model.Total.{IsUsable, IsShaped}
use smart_hpa.Tests.Sample.{hundredths, config, data_in}

abbrev found : Result (List (PatternResult ℕ)) → List (PatternResult ℕ)
found (ok ps) = ps
found (raise e) = []

abbrev patterns : List (PatternResult ℕ)
patterns = found (infer config data_in)

infer_runs : infer config data_in ≡ ok patterns
unfolding infer model_config
infer_runs = refl

infer_kinds : map (λ p. p.pattern_type) patterns ≡ peak ∷ off_peak ∷ night ∷ weekend ∷ []
unfolding infer model_config
infer_kinds = refl

infer_lem_example :
    All (IsInferred config) patterns
    × Pairs (λ p q. stage config p.pattern_type < stage config q.pattern_type) patterns
infer_lem_example = infer_lem config data_in patterns infer_runs

index-zeros {ℓ} : {A : Type ℓ} (z : A) (n i : ℕ) → i < n → index (zeros z n) i ≡ ok z
index-zeros z zero i h = absurd (omega arith)
index-zeros z (suc n) zero h = refl
index-zeros z (suc n) (suc i) h = index-zeros z n i (omega arith)

cell-zeros : (z i j : ℕ) → i < 7 → j < 24 → cell (zeros (zeros z 24) 7) i j ≡ ok z
unfolding cell
cell-zeros z i j h k = rw (index-zeros (zeros z 24) 7 i h) (index-zeros z 24 j k)

abbrev shaped : IsShaped config data_in
shaped = record {
  counts = λ i j h k. (1, cell-zeros 1 i j h k);
  avgs = λ i j h k. (200, cell-zeros 200 i j h k);
  maxs = λ i j h k. (200, cell-zeros 200 i j h k);
}

pub usable : IsUsable config
unfolding model_config
usable = record {
  business_start = omega arith;
  business_end = omega arith;
  night_start = omega arith;
  night_end = omega arith;
  weekend = omega arith;
}
