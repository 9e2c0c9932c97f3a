-- ===== src/Tests/Preprocessor.antt =====
-- The preprocessor on three samples, and on ten of which one is an outlier.
use smart_hpa.Prelude.{ℕ, ◌≡◌, refl, List, [], ◌∷◌, ◌++◌, ok, arith}
use smart_hpa.V2.Data.{ProcessedData}
use smart_hpa.V2.Preprocessor.{preprocess, clean_data}
use smart_hpa.V2.Preprocessor.Hourly.{preprocess-IsHourly, IsHourly}
use smart_hpa.Tests.Sample.{hundredths, metrics}

preprocess-IsHourly_example :
    (p : ProcessedData ℕ) × (preprocess 300 metrics ≡ ok p)
    × IsHourly (clean_data 300 metrics.values) metrics.hours metrics.days_of_week p
preprocess-IsHourly_example = preprocess-IsHourly 300 metrics refl (omega arith) (omega arith)

abbrev before : List ℕ
before = 200 ∷ 200 ∷ []

abbrev after : List ℕ
after = 300 ∷ 200 ∷ []

-- The value 90.00 between 2.00 and 3.00 is dropped, with one deviation allowed.
drops : clean_data 100 (before ++ (9000 ∷ after)) ≡ 200 ∷ 200 ∷ 300 ∷ 200 ∷ []
unfolding clean_data
drops = refl
