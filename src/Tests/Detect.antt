-- ===== src/Tests/Detect.antt =====
-- `analyze` of ml/pattern_analyzer.py on replica counts over a Monday morning, with tools that put each
-- row in a group of its own and number the clusters in turn.
use mathlib.Core.List.{flat_map}
use smart_hpa.Prelude.{
  ℕ, ◌+◌, ◌*◌, ◌%◌, ◌≡◌, ◌≤◌, ◌<◌, refl, ◌↔◌, List, [], ◌∷◌, map, length, range, some, ok,
}
use smart_hpa.Prelude.Int.{pos}
use smart_hpa.Clock.{weekday, monday_morning, minutes}
use smart_hpa.V1.Config.{analysis_config}
use smart_hpa.V1.Prometheus.{time, number, Columns, Frame, get_cell}
use smart_hpa.V1.Prometheus.Sample.{MetricsData}
use smart_hpa.V1.Analyzer.{slot_times}
use smart_hpa.V1.Analyzer.Tables.{Unified, Featured, Slot, Tools}
use smart_hpa.V1.Analyzer.Detect.{time_features, analyze}
use smart_hpa.V1.Analyzer.Extract.{time_features_lem}
use smart_hpa.Tests.Sample.{hundredths}

abbrev pub unified : ℕ → ℕ → Unified ℕ
unified t x = record { timestamp = t; cpu_mean = x; memory_mean = x; replicas_mean = x }

-- A row of a frame whose first cells are its time and its value.
abbrev joined : Columns ℕ → List (Unified ℕ)
joined ((k, time t) ∷ (l, number x) ∷ row) = unified t x ∷ []
joined _ = []

abbrev slot_of : Featured ℕ → Slot ℕ
slot_of row = record {
  day_of_week = row.day_of_week;
  time_slot = row.time_slot;
  cpu_mean = row.unified.cpu_mean;
  memory_mean = row.unified.memory_mean;
  replicas_mean = row.unified.replicas_mean;
  time_of_day = row.time_of_day;
  is_weekend = row.is_weekend * 100;
}

abbrev pub tools : Tools ℕ
tools = record {
  unify = λ dfs. ok (flat_map (λ df. flat_map joined df) dfs);
  week = λ t. 1;
  group = map slot_of;
  scale = ok;
  fit_predict = λ xs k. ok (map (λ i. i % k) (range 0 (length xs)));
  silhouette = λ xs labels. ok 50;
  series_std = λ xs. 0;
}

abbrev pub IsFinite : ℕ → Type 0
IsFinite x = Unit

abbrev point_row : ℕ → Columns ℕ
point_row i =
    ("timestamp", time (monday_morning + minutes (15 * i + 15))) ∷ ("value", number (150 + i)) ∷ []

abbrev IsPointRow : Columns ℕ → Type 0
IsPointRow row =
    ((t : ℕ) × (get_cell "timestamp" row ≡ some (time t)))
    × ((x : ℕ) × (get_cell "value" row ≡ some (number x)) × Unit)

-- From 09:45 to 13:00.
abbrev frame : Frame ℕ
frame = map point_row (range 0 14)

abbrev metrics : MetricsData ℕ
metrics = record { cpu = []; memory = []; replicas = frame; timestamps = []; labels = [] }

-- The two clusters, which start a quarter of an hour apart, are merged; they start at 09:45 and at
-- 10:00, and the merged pattern starts before both.
analyze_runs :
    analyze tools 0 analysis_config metrics
    ≡ ok (
        record {
          start_hour = 9;
          start_minute = 0;
          end_hour = 13;
          end_minute = 15;
          days = 0 ∷ [];
          avg_cpu = 0;
          avg_memory = 0;
          avg_replicas = 156;
          peak_replicas = pos 2;
          confidence = 70;
        }
        ∷ [])
unfolding analyze flat_map analysis_config
analyze_runs = refl

time_features_lem_example :
    let row = unified (monday_morning + minutes 19) 200 in
    let features = time_features tools row in
    let time_of = row.timestamp % 86_400_000_000 in
    let start = (slot_times features.time_slot features.time_slot).0 in
    (features.unified ≡ row)
    × (features.time_slot * 900_000_000 ≤ time_of)
    × (time_of < (features.time_slot + 1) * 900_000_000)
    × (features.hour * 3_600_000_000 + features.minute * 60_000_000 ≤ time_of)
    × (time_of < features.hour * 3_600_000_000 + features.minute * 60_000_000 + 60_000_000)
    × (features.minute < 60)
    × (features.day_of_week ≡ weekday row.timestamp)
    × (start.0 ≡ features.hour)
    × (start.1 ≤ features.minute)
    × (features.minute < start.1 + 15)
    × ((features.is_weekend ≡ 1) ↔ (5 ≤ features.day_of_week))
time_features_lem_example = time_features_lem tools (unified (monday_morning + minutes 19) 200)
