-- ===== src/Tests/Sample.antt =====
-- Data for the tests: floats with two decimals, as numbers of hundredths, and patterns, metrics and a
-- client over them. Differences stop at 0, and the deviation is the mean of the absolute differences.
use Prim.Native.Nat.{max}
use mathlib.Core.List.{foldl}
use smart_hpa.Prelude.{
  none, some, value_error, ℕ, zero, suc, ◌+◌, ◌-◌, ◌*◌, ◌/◌, String, List, [], ◌∷◌, map, length,
  ltb, leb, ◌==◌, if◌then◌else◌, Result, ok, raise, get_or, range, ◌%◌,
}
use smart_hpa.Prelude.Int.{ℤ, pos, negsuc}
use smart_hpa.Prelude.Sort.{sorted}
use smart_hpa.Prelude.Text.{str_eq}
use smart_hpa.Float.{Float}
use smart_hpa.V2.Config.{
  TriggerType, ModelConfig, model_config, PatternResult, FetchConfig, TriggerConfig,
}
use smart_hpa.V2.Data.{ReplicaMetrics, ProcessedData}
use smart_hpa.V2.Preprocessor.{zeros}
use smart_hpa.Host.{Host}
use smart_hpa.V2.Fetcher.{Client}

abbrev pow_ten : ℕ → ℕ
pow_ten zero = 1
pow_ten (suc k) = 10 * pow_ten k

abbrev quotient : ℕ → ℕ → ℕ
quotient a b = if b == 0 then 0 else a / b

abbrev sum : List ℕ → ℕ
sum = foldl ◌+◌ 0

abbrev average : List ℕ → ℕ
average xs = quotient (sum xs) (length xs)

abbrev gap : ℕ → ℕ → ℕ
gap a b = (a - b) + (b - a)

abbrev hundred_times : ℤ → ℕ
hundred_times (pos n) = n * 100
hundred_times (negsuc n) = 0

instance abbrev pub hundredths : Float ℕ
hundredths = record {
  literal = λ m k. quotient (m * 100) (pow_ten k);
  inf = 1_000_000;
  of_int = hundred_times;
  add = ◌+◌;
  sub = ◌-◌;
  mul = λ a b. (a * b) / 100;
  div = λ a b. quotient (a * 100) b;
  abs = λ a. a;
  lt = ltb;
  le = leb;
  eq = ◌==◌;
  int = λ a. ok (pos (a / 100));
  ceil = λ a. ((a + 99) / 100) * 100;
  round2 = λ a. a;
  mean = average;
  std = λ xs. average (map (λ x. gap x (average xs)) xs);
  amin = λ xs. get_or (sorted (λ x y. ltb y x) xs) 0 0;
  amax = λ xs. foldl max 0 xs;
  percentile = λ xs p. get_or (sorted (λ x y. ltb y x) xs) (p * (length xs - 1) / 100) 0;
  maximum = max;
}

abbrev pub config : ModelConfig ℕ
config = model_config

-- A pattern on Monday and Tuesday.
abbrev pub pattern : TriggerType → List ℕ → ℕ → ℕ → PatternResult ℕ
pattern kind hours low high = record {
  pattern_type = kind;
  hours = hours;
  days = 0 ∷ 1 ∷ [];
  avg_replicas = low;
  min_replicas = low;
  max_replicas = high;
  percentile_25 = low;
  percentile_75 = high;
  confidence = 80;
  sample_count = 4;
}

-- The trigger of such a pattern.
abbrev pub trigger : String → TriggerType → ℕ → String → String → ℕ → ℕ → TriggerConfig ℕ
trigger name kind priority start_time end_time low high = record {
  name = name;
  trigger_type = kind;
  priority = priority;
  timezone = "UTC";
  start_time = start_time;
  end_time = end_time;
  recurring = "M,TU";
  min_replicas = pos low;
  max_replicas = pos high;
  confidence = 80;
}

-- Three samples on Monday, at 9, 10 and 22 hours.
abbrev pub metrics : ReplicaMetrics ℕ
metrics = record {
  timestamps = 1 ∷ 2 ∷ 3 ∷ [];
  values = 300 ∷ 500 ∷ 100 ∷ [];
  hours = 9 ∷ 10 ∷ 22 ∷ [];
  days_of_week = 0 ∷ 0 ∷ 0 ∷ [];
  dates = "2024-01-01" ∷ "2024-01-01" ∷ "2024-01-01" ∷ [];
}

abbrev pub night_hours : List ℕ
night_hours = 22 ∷ 23 ∷ 0 ∷ 1 ∷ []

abbrev pub off_peak_hours : List ℕ
off_peak_hours = 17 ∷ 23 ∷ 0 ∷ []

-- Data whose cells all hold the average 2.00 of one sample.
abbrev pub data_in : ProcessedData ℕ
data_in = record {
  raw_metrics = metrics;
  hourly_avg = zeros (zeros 200 24) 7;
  hourly_max = zeros (zeros 200 24) 7;
  hourly_min = zeros (zeros 200 24) 7;
  hourly_std = zeros (zeros 0 24) 7;
  hourly_count = zeros (zeros 1 24) 7;
  daily_avg = zeros 200 7;
  daily_max = zeros 200 7;
  daily_min = zeros 200 7;
  global_avg = 200;
  global_max = 200;
  global_min = 200;
  global_std = 0;
  percentile_25 = 200;
  percentile_50 = 200;
  percentile_75 = 200;
  percentile_90 = 200;
  percentile_95 = 200;
}

abbrev parse_text : String → Result ℕ
parse_text text =
    if str_eq text "3" then ok 300 else if str_eq text "5" then ok 500 else raise value_error

-- Answers each query with two series, of which the second has a bad value.
abbrev pub client : Client ℕ
client = record {
  get = λ query step.
      ok
        (record { status = "success"; result = ((7, "3") ∷ (9, "5") ∷ []) ∷ ((8, "?") ∷ []) ∷ [] });
  parse = parse_text;
  nan = 1_000_001;
  is_nan = λ x. x == 1_000_001;
  utc_error = λ t. if ltb t 100_000_000_000_000 then none else some value_error;
  hour = λ t. t % 24;
  weekday = λ t. t % 7;
  date = λ t. "2024-01-01";
  argsort = λ xs. sorted (λ i j. ltb (get_or xs j 0) (get_or xs i 0)) (range 0 (length xs));
  unique = λ xs. (xs, range 0 (length xs));
}

abbrev pub fetch_config : FetchConfig
fetch_config = record {
  days = 1;
  step_minutes = 5;
  namespace = "shop";
  deployment = "cart";
  custom_labels = [];
}

-- A host whose draws are the middle of their range; its state counts them.
abbrev pub host : Host ℕ ℕ
host = record {
  seed = λ n s. ok 0;
  uniform = λ low high s. ok ((low + high) / 2, suc s);
  normal = λ mean deviation s. ok (mean, suc s);
  random = λ s. (50, suc s);
  normals = λ mean deviation n s. ok (zeros mean n, s + n);
  randint = λ low high s. (low, suc s);
  round = λ x. ok (pos (x / 100));
  rint = λ x. x;
  timestamp_error = λ t. if ltb t 86_400_000_000 then some value_error else none;
  timestamp = λ t. (t / 1_000_000 - 62_135_596_800) * 100;
}
