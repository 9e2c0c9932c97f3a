-- ===== src/V2/Fetcher/Sample.antt =====
-- `_generate_sample_data` of ml/v2/data_fetcher.py, and `fetch` with it.
use mathlib.Core.List.{zip_with}
use smart_hpa.Prelude.{
  ℕ, suc, ◌/◌, ◌&&◌, String, List, [], ◌∷◌, map, length, Option, none, some, Result, ok, raise,
  ◌>>=◌, and_then, first_error, unless_error, ltb, leb, if◌then◌else◌,
}
use smart_hpa.Prelude.Text.{concat, decimal}
use smart_hpa.Float.{Float}
use smart_hpa.Host.{Host}
use smart_hpa.Clock.{days, minutes, sub_delta, ticks}
use smart_hpa.V2.Config.{PrometheusConfig, FetchConfig, to_label_selector}
use smart_hpa.V2.Data.{ReplicaMetrics, is_empty}
use smart_hpa.V2.Fetcher.{Client, build_metrics, query_range}

-- `return metrics` at the first query that answers with data; `none` after the last one.
unfoldable pub first_usable :
    {F : Type 0} → (String → Result (ReplicaMetrics F)) → List String → Option (ReplicaMetrics F)
first_usable run [] = none
first_usable run (query ∷ queries) =
    let later = first_usable run queries in
    elim (run query) [
      | ok metrics ↦ if is_empty metrics then later else some metrics
      | raise e ↦ later
    ]

module _ {F : Type 0} {S : Type 0} ⦃f : Float F⦄ (client : Client F) (host : Host F S) where
  open host use {uniform, random}

  -- A burst takes the place of one value in ten.
  unfoldable pub sample_burst : F × S → Result (F × S)
  sample_burst base =
      let chance = random base.1 in
      if f.lt chance.0 (f.literal 10 2)
      then uniform (f.literal 10 0) (f.literal 15 0) chance.1
      else ok (base.0, chance.1)

  -- The value of one time, before the noise.
  unfoldable pub sample_value : F → S → Result (F × S)
  unfolding sample_burst
  sample_value ts s =
      let hour = client.hour ts in
      let quiet = uniform (f.literal 1 0) (f.literal 3 0) s in
      if leb 5 (client.weekday ts)
      then quiet
      else if leb 9 hour && ltb hour 17
      then uniform (f.literal 3 0) (f.literal 6 0) s >>= sample_burst
      else quiet

  unfoldable pub sample_values : List F → S → Result (List F × S)
  unfolding sample_value
  sample_values [] s = ok ([], s)
  sample_values (ts ∷ timestamps) s = do
    value ← sample_value ts s
    rest ← sample_values timestamps value.1
    ok (value.0 ∷ rest.0, rest.1)

  -- The values with noise, rounded, and at least 1.
  unfoldable pub sample_metrics : List F → S → Result (ReplicaMetrics F × S)
  unfolding sample_values
  sample_metrics timestamps s = do
    values ← sample_values timestamps s
    noise ← host.normals (f.literal 0 0) (f.literal 3 1) (length timestamps) values.1
    let noisy = zip_with f.add values.0 noise.0
    let rounded = map (λ v. f.maximum (f.literal 1 0) (host.rint v)) noisy
    metrics ← build_metrics client timestamps rounded
    ok (metrics, noise.1)

  -- One turn of the loop over the times for each minute is enough.
  unfoldable pub generate_sample_data : ℕ → ℕ → ℕ → S → Option (Result (ReplicaMetrics F × S))
  unfolding ticks sample_metrics
  generate_sample_data start end step_minutes s = and_then (some (host.seed (some 42) s)) λ seeded.
      and_then (ticks (suc (suc (end / 60_000_000))) end (minutes step_minutes) start) λ times.
        and_then
          (some (unless_error (first_error host.timestamp_error times) (map host.timestamp times)))
          λ stamps. some (sample_metrics stamps seeded)

  -- `fetch` at the time `now`, the value of `datetime.utcnow()`.
  unfoldable pub fetch_at :
      PrometheusConfig → FetchConfig → ℕ → S → Option (Result (ReplicaMetrics F × S))
  unfolding first_usable query_range to_label_selector concat decimal generate_sample_data sub_delta
  fetch_at config fetch_config now s =
      let step = concat (decimal fetch_config.step_minutes ∷ "m" ∷ []) in
      let labels = to_label_selector fetch_config in
      let queries = config.replica_query labels ∷ config.hpa_replica_query labels ∷ [] in
      and_then (some (sub_delta now (days fetch_config.days))) λ start.
        elim (first_usable (λ query. query_range client query step) queries) [
          | some metrics ↦ some (ok (metrics, s))
          | none ↦ generate_sample_data start now fetch_config.step_minutes s
        ]

  -- What the fetcher of a pipeline returns, raises, or `none` if it does not end, at the time `now` and
  -- from the state `s` of the random generator.
  unfoldable pub fetched_at :
      ℕ → S → PrometheusConfig → FetchConfig → Option (Result (ReplicaMetrics F))
  unfolding fetch_at
  fetched_at now s config fetch_config =
      and_then (fetch_at config fetch_config now s) λ r. some (ok r.0)
