-- ===== src/Tests/Synthetic.antt =====
-- The generator of synthetic data on a host whose draws are the middle of their range, and the file of
-- one day read back.
use smart_hpa.Prelude.{
  ℕ, suc, ◌+◌, ◌*◌, ◌/◌, ◌≤◌, ◌≡◌, ◌↔◌, refl, true, false, [], ◌∷◌, length, some, ok, range, arith,
  leb,
}
use smart_hpa.Prelude.Int.{pos, max_ℤ}
use smart_hpa.Prelude.Text.Decimal.{number_of}
use smart_hpa.Json.{Json}
use smart_hpa.Clock.{days, minutes, weekday, monday_morning}
use smart_hpa.Clock.Ticks.{IsCount, progression}
use smart_hpa.V2.Fetcher.{Client}
use smart_hpa.V2.Synthetic.{SyntheticConfig, synthetic_config, Dataset, is_peak_hour, generate}
use smart_hpa.V2.Synthetic.Output.{get_expected_patterns}
use smart_hpa.V2.Synthetic.Expected.{IsDuring, get_expected_patterns_lem}
use smart_hpa.V2.Synthetic.Generate.{IsTame, IsDataset, generate-IsDataset}
use smart_hpa.Tests.Sample.{hundredths, client, host}

-- A client that reads decimal numbers, and sorts what is sorted.
abbrev reader : Client ℕ
reader = record client {
  parse = λ text. ok (number_of text * 100);
  argsort = λ xs. range 0 (length xs);
}

abbrev one_day : SyntheticConfig ℕ
one_day = record synthetic_config { days = 1; step_minutes = 240 }

-- Six times from half past nine on a Monday: two of them at peak hours.
generate_runs :
    elim (generate host one_day 0 (some monday_morning) 0) [
      | some (ok made) ↦ made.0.replicas
      | other ↦ []
    ]
    ≡ 400 ∷ 400 ∷ 200 ∷ 200 ∷ 200 ∷ 200 ∷ []
unfolding generate max_ℤ
generate_runs = refl

abbrev IsReplicas : ℕ → Type 0
IsReplicas v = v ≤ 100_000

tame : IsTame host IsReplicas one_day
tame = record {
  uniform_law = λ low high s l h. (((low + high) / 2, suc s), refl, omega arith);
  normal_law = λ s. ((0, suc s), refl, omega arith);
  round_law = λ a b l h. (pos ((a + b) / 100), refl, omega arith);
  peak_min_exact = omega arith;
  ten = omega arith;
  peak_min = omega arith;
  peak_max = omega arith;
  burst_max = omega arith;
  offpeak_min = omega arith;
  offpeak_max = omega arith;
  weekend_min = omega arith;
  weekend_max = omega arith;
}

generate-IsDataset_example :
    (made : Dataset ℕ × ℕ) × (n : ℕ) × (generate host one_day 0 (some monday_morning) 0
      ≡ some (ok made))
    × IsCount (monday_morning + days 1) (minutes 240) monday_morning n
    × IsDataset host one_day (progression n (minutes 240) monday_morning) made.0
generate-IsDataset_example =
    generate-IsDataset host IsReplicas one_day tame 0 monday_morning 0 (omega arith) (omega arith)
      (λ t a b. ground arith)

get_expected_patterns_lem_example :
    ((is_peak_hour one_day monday_morning ≡ true)
      ↔ IsDuring monday_morning (get_expected_patterns one_day).peak)
    × ((leb 5 (weekday monday_morning) ≡ true)
        ↔ IsDuring monday_morning (get_expected_patterns one_day).weekend)
    × (((is_peak_hour one_day monday_morning ≡ false) × (leb 5 (weekday monday_morning) ≡ false))
        ↔ IsDuring monday_morning (get_expected_patterns one_day).off_peak)
get_expected_patterns_lem_example = get_expected_patterns_lem one_day monday_morning
