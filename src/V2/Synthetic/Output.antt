-- ===== src/V2/Synthetic/Output.antt =====
-- ml/v2/synthetic_data.py: the training sets, the saved files and the expected patterns.
use Prim.Native.Nat.{zero, suc}
use smart_hpa.Prelude.{
  range, ◌++◌, traverse, and_then, zip, ℕ, ◌+◌, ◌*◌, List, [], ◌∷◌, Option, none, some, Result, ok,
  ◌>>=◌, ◌==◌, if◌then◌else◌,
}
use smart_hpa.Prelude.Int.{ℤ, pos, negsuc, ◌+ℤ◌}
use smart_hpa.Prelude.Text.{int_text}
use smart_hpa.Json.{Json, str, num, object, array}
use smart_hpa.Float.{Float}
use smart_hpa.Host.{Host}
use smart_hpa.Clock.{days, sub_delta}
use smart_hpa.V2.Synthetic.{
  SyntheticConfig, synthetic_config, Row, Dataset, new_generator, generate,
}

-- `self.config.seed + i if self.config.seed else None`
unfoldable pub seed_of : Option ℕ → ℕ → Option ℕ
seed_of none i = none
seed_of (some seed) i = if seed == 0 then none else some (seed + i)

-- The dictionary with the values of the one series.
abbrev pub saved_answer : List Json → Json
saved_answer values =
    let metric =
      object
        (("deployment", str "synthetic-app") ∷ ("namespace", str "synthetic-namespace") ∷ []) in
    let series = object (("metric", metric) ∷ ("values", array values) ∷ []) in
    let matrix = object (("resultType", str "matrix") ∷ ("result", array (series ∷ [])) ∷ []) in
    object (("status", str "success") ∷ ("data", matrix) ∷ [])

module _ {F : Type 0} {S : Type 0} ⦃f : Float F⦄ (host : Host F S) where
  open host use {randint}

  -- The configuration of one training sample: `randint(low, high)` excludes `high`.
  unfoldable pub vary : SyntheticConfig F → ℕ → S → SyntheticConfig F × S
  unfolding seed_of
  vary config i s =
      let low = randint (negsuc 0) (pos 2) s in
      let high = randint (negsuc 0) (pos 2) low.1 in
      let top = randint (negsuc 1) (pos 3) high.1 in
      (
        record synthetic_config {
          days = config.days;
          step_minutes = config.step_minutes;
          peak_min_replicas = config.peak_min_replicas +ℤ low.0;
          peak_max_replicas = config.peak_max_replicas +ℤ high.0;
          peak_burst_max = config.peak_burst_max +ℤ top.0;
          offpeak_min_replicas = config.offpeak_min_replicas;
          offpeak_max_replicas = config.offpeak_max_replicas;
          seed = seed_of config.seed i;
        },
        top.1,
      )

  -- One turn of the loop of `generate_training_set`; `now` is the time that `utcnow()` gives.
  unfoldable pub training_sample : SyntheticConfig F → ℕ → ℕ → S → Option (Result (Dataset F × S))
  unfolding seed_of vary new_generator generate sub_delta
  training_sample config now i s = and_then (some (host.seed (seed_of config.seed i) s)) λ s'.
      let varied = vary config i s' in
      and_then (some (new_generator host (some varied.0) varied.1)) λ made.
        and_then (some (sub_delta now (days (varied.0.days + i * 7))))
          λ start. generate host made.0 now (some start) made.1

  -- The samples from the `i`-th one on.
  unfoldable pub samples_from :
      SyntheticConfig F → (ℕ → ℕ) → ℕ → ℕ → S → Option (Result (List (Dataset F) × S))
  unfolding training_sample
  samples_from config now zero i s = some (ok ([], s))
  samples_from config now (suc n) i s = and_then (training_sample config (now i) i s) λ sample.
      and_then (samples_from config now n (i + 1) sample.1)
        λ rest. some (ok (sample.0 ∷ rest.0, rest.1))

  unfoldable pub generate_training_set :
      SyntheticConfig F → (ℕ → ℕ) → ℕ → S → Option (Result (List (Dataset F) × S))
  unfolding samples_from
  generate_training_set config now num_samples s = samples_from config now num_samples 0 s

  -- The data frame that is written to the file.
  unfoldable pub save_to_csv : SyntheticConfig F → ℕ → S → Option (Result (List (Row F) × S))
  unfolding generate
  save_to_csv config now s =
      and_then (generate host config now none s) λ made. some (ok (made.0.rows, made.1))

  -- `[int(ts), str(int(r))]`
  unfoldable pub saved_point : F × F → Result Json
  saved_point point = do
    ts ← f.int point.0
    r ← f.int point.1
    ok (array (num ts ∷ str (int_text r) ∷ []))

  unfoldable pub saved_data : List F → List F → Result Json
  unfolding saved_point
  saved_data timestamps replicas = do
    values ← traverse saved_point (zip timestamps replicas)
    ok (saved_answer values)

  -- The data that is written to the file.
  unfoldable pub save_to_json : SyntheticConfig F → ℕ → S → Option (Result (Json × S))
  unfolding generate saved_data
  save_to_json config now s = and_then (generate host config now none s) λ made.
      some (saved_data made.0.unix_timestamps made.0.replicas >>= λ saved. ok (saved, made.1))

-- What `get_expected_patterns` says of one pattern.
pub record ExpectedPattern (F : Type 0) : Type 0 where
  pub hours : List ℕ
  pub days : List ℕ
  pub min_replicas : ℤ
  pub max_replicas : ℤ
  pub avg_replicas : F

pub record ExpectedPatterns (F : Type 0) : Type 0 where
  pub peak : ExpectedPattern F
  pub off_peak : ExpectedPattern F
  pub weekend : ExpectedPattern F

-- `(a + b) / 2`
abbrev pub middle : {F : Type 0} ⦃f : Float F⦄ → ℤ → ℤ → F
middle ⦃f⦄ a b = f.div (f.of_int (a +ℤ b)) (f.literal 2 0)

unfoldable pub get_expected_patterns :
    {F : Type 0} ⦃f : Float F⦄ → SyntheticConfig F → ExpectedPatterns F
get_expected_patterns c = record {
  peak = record {
    hours = range c.peak_start_hour c.peak_end_hour;
    days = 0 ∷ 1 ∷ 2 ∷ 3 ∷ 4 ∷ [];
    min_replicas = c.peak_min_replicas;
    max_replicas = c.peak_burst_max;
    avg_replicas = middle c.peak_min_replicas c.peak_max_replicas;
  };
  off_peak = record {
    hours = range 0 c.peak_start_hour ++ range c.peak_end_hour 24;
    days = 0 ∷ 1 ∷ 2 ∷ 3 ∷ 4 ∷ [];
    min_replicas = c.offpeak_min_replicas;
    max_replicas = c.offpeak_max_replicas;
    avg_replicas = middle c.offpeak_min_replicas c.offpeak_max_replicas;
  };
  weekend = record {
    hours = range 0 24;
    days = 5 ∷ 6 ∷ [];
    min_replicas = c.weekend_min_replicas;
    max_replicas = c.weekend_max_replicas;
    avg_replicas = middle c.weekend_min_replicas c.weekend_max_replicas;
  };
}
