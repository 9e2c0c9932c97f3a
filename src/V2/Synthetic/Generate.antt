-- ===== src/V2/Synthetic/Generate.antt =====
-- `generate`: it ends, with the times of the days, and a count of replicas for each of them.
use smart_hpa.Prelude.{
  All, none, first_error-none, ℕ, ◌+◌, ◌*◌, ◌<◌, ◌≤◌, ◌≡◌, refl, ap, true, false, List, [], ◌∷◌,
  map, some, ok, leb, ltb, if◌then◌else◌, Bool-cases, inl, inr, Each, ◌↔◌, arith,
}
use smart_hpa.Prelude.Int.{ℤ, pos, ◌≤ℤ◌, max_ℤ, max_ℤ_bounds, max_ℤ_least}
use smart_hpa.Float.{Float}
use smart_hpa.Host.{Host}
use smart_hpa.Clock.{days, minutes, hour, weekday, add_delta}
use smart_hpa.Clock.Ticks.{progression-All, progression, IsCount, ticks-progression}
use smart_hpa.V2.Synthetic.{
  SyntheticConfig, Row, Dataset, is_peak_hour, with_noise, burst, between, get_replica_count,
  replica_counts, row, rows, dataset, timestamps_of, start_or_now, generate_from, generate,
}

-- The greatest integer that floats hold exactly with all smaller ones.
abbrev pub exact_max : ℤ
exact_max = pos 9_007_199_254_740_991

-- The least number of replicas at a time.
abbrev pub least_at : {F : Type 0} → SyntheticConfig F → ℕ → ℤ
least_at config ts = if is_peak_hour config ts then config.peak_min_replicas else pos 1

-- What is documented of the draws: they return numbers of a range where sums can be rounded, to
-- integers that floats hold exactly.
pub record IsTame {F : Type 0} {S : Type 0} ⦃f : Float F⦄ (host : Host F S)
    (IsReplicas : F → Type 0) (config : SyntheticConfig F) : Type 0 where
  pub uniform_law :
      (low high : F) (s : S)
      → IsReplicas low
      → IsReplicas high
      → (v : F × S) × (host.uniform low high s ≡ ok v) × IsReplicas v.0
  pub normal_law :
      (s : S)
      → (v : F × S) × (host.normal (f.literal 0 0) config.noise_std s ≡ ok v) × IsReplicas v.0
  pub round_law :
      (a b : F)
      → IsReplicas a
      → IsReplicas b
      → (n : ℤ) × (host.round (f.add a b) ≡ ok n) × (n ≤ℤ exact_max)
  pub peak_min_exact : config.peak_min_replicas ≤ℤ exact_max
  pub ten : IsReplicas (f.literal 10 0)
  pub peak_min : IsReplicas (f.of_int config.peak_min_replicas)
  pub peak_max : IsReplicas (f.of_int config.peak_max_replicas)
  pub burst_max : IsReplicas (f.of_int config.peak_burst_max)
  pub offpeak_min : IsReplicas (f.of_int config.offpeak_min_replicas)
  pub offpeak_max : IsReplicas (f.of_int config.offpeak_max_replicas)
  pub weekend_min : IsReplicas (f.of_int config.weekend_min_replicas)
  pub weekend_max : IsReplicas (f.of_int config.weekend_max_replicas)

-- The number of replicas at a time, as a float.
abbrev pub IsReplicaCount : {F : Type 0} ⦃f : Float F⦄ → SyntheticConfig F → ℕ → F → Type 0
IsReplicaCount ⦃f⦄ config ts replicas =
    (count : ℤ) × (replicas ≡ f.of_int count) × (least_at config ts ≤ℤ count) × (count ≤ℤ exact_max)

-- A row with what the data frame says of a time.
abbrev pub IsRowOf : {F : Type 0} → SyntheticConfig F → ℕ → Row F → Type 0
IsRowOf config ts r =
    (r.timestamp ≡ ts)
    × (r.hour ≡ hour ts)
    × (r.day_of_week ≡ weekday ts)
    × ((r.is_weekend ≡ true) ↔ (5 ≤ weekday ts))
    × (r.is_peak ≡ is_peak_hour config ts)

-- The three results of `generate` for a list of times.
pub record IsDataset {F : Type 0} {S : Type 0} ⦃f : Float F⦄ (host : Host F S)
    (config : SyntheticConfig F) (timestamps : List ℕ) (data_set : Dataset F) : Type 0 where
  pub unix_lem : data_set.unix_timestamps ≡ map host.timestamp timestamps
  pub replicas_lem : Each (IsReplicaCount config) timestamps data_set.replicas
  pub rows_lem :
      Each (IsRowOf config) timestamps data_set.rows
      × (map (λ r. r.replicas) data_set.rows ≡ data_set.replicas)

rows_lem :
    {F : Type 0} ⦃f : Float F⦄ (config : SyntheticConfig F) (timestamps : List ℕ)
    (replicas : List F)
    → Each (IsReplicaCount config) timestamps replicas
    → Each (IsRowOf config) timestamps (rows config timestamps replicas)
      × (map (λ r. r.replicas) (rows config timestamps replicas) ≡ replicas)
unfolding rows row
rows_lem config [] [] e = (tt, refl)
rows_lem config [] (r ∷ rs) e = elim e [ ]
rows_lem config (t ∷ ts) [] e = elim e [ ]
rows_lem config (t ∷ ts) (r ∷ rs) e =
    let (each, same) = rows_lem config ts rs e.1 in
    (((refl, refl, refl, ground arith, refl), each), ap (λ xs. r ∷ xs) same)

timestamps_of_lem :
    {F : Type 0} (config : SyntheticConfig F) (start : ℕ)
    → 0 < config.step_minutes
    → start + days config.days + minutes config.step_minutes < 315_537_897_600_000_000
    → (n : ℕ) × IsCount (start + days config.days) (minutes config.step_minutes) start n
      × (timestamps_of config start ≡ some (ok (progression n (minutes config.step_minutes) start)))
unfolding timestamps_of add_delta
timestamps_of_lem config start p l =
    let (n, count, ends) =
      ticks-progression (minutes 1) (config.days * 1440) (start + days config.days)
        (minutes config.step_minutes) start (omega arith) (omega arith) (omega arith)
        (omega arith) in
    let inside : ltb (start + days config.days) 315_537_897_600_000_000 ≡ true = ground arith in
    (n, count, rw inside ends)

module _ {F : Type 0} {S : Type 0} ⦃f : Float F⦄ (host : Host F S) (IsReplicas : F → Type 0)
    (config : SyntheticConfig F) (tame : IsTame host IsReplicas config) where
  open tame use {uniform_law, normal_law, round_law}

  with_noise_lem :
      (least : ℤ) (base : F × S)
      → IsReplicas base.0
      → least ≤ℤ exact_max
      → (r : ℤ × S) × (with_noise host config least base ≡ ok r)
        × (least ≤ℤ r.0)
        × (r.0 ≤ℤ exact_max)
  unfolding with_noise
  with_noise_lem least base h l =
      let (noise, drawn, n) = normal_law base.1 in
      let (count, rounded, small) = round_law base.0 noise.0 h n in
      (
        (max_ℤ least count, noise.1),
        rw (drawn, rounded) refl,
        (max_ℤ_bounds least count).0,
        max_ℤ_least least count exact_max l small,
      )

  burst_lem :
      (base : F × S)
      → IsReplicas base.0
      → (v : F × S) × (burst host config base ≡ ok v) × IsReplicas v.0
  unfolding burst
  burst_lem base h =
      elim (f.lt (host.random base.1).0 config.peak_burst_probability)
        as (λ b.
          (v : F × S) × ((if b
              then host.uniform (f.literal 10 0) (f.of_int config.peak_burst_max)
                  (host.random base.1).1
              else ok (base.0, (host.random base.1).1))
            ≡ ok v)
          × IsReplicas v.0) [
            | true ↦
                uniform_law (f.literal 10 0) (f.of_int config.peak_burst_max) (host.random base.1).1
                  tame.ten tame.burst_max
            | false ↦ ((base.0, (host.random base.1).1), refl, h)
          ]

  between_lem :
      (low high : ℤ) (s : S)
      → IsReplicas (f.of_int low)
      → IsReplicas (f.of_int high)
      → (v : F × S) × (between host low high s ≡ ok v) × IsReplicas v.0
  unfolding between
  between_lem low high s l h = uniform_law (f.of_int low) (f.of_int high) s l h

  weekend_not_peak : (ts : ℕ) → leb 5 (weekday ts) ≡ true → is_peak_hour config ts ≡ false
  unfolding is_peak_hour
  weekend_not_peak ts h = ground arith

  get_replica_count_lem :
      (ts : ℕ) (s : S)
      → (r : ℤ × S) × (get_replica_count host config ts s ≡ ok r)
        × (least_at config ts ≤ℤ r.0)
        × (r.0 ≤ℤ exact_max)
  unfolding get_replica_count
  get_replica_count_lem ts s = elim (Bool-cases (leb 5 (weekday ts))) [
    | inl free ↦
        let (base, drawn, b) =
          between_lem config.weekend_min_replicas config.weekend_max_replicas s tame.weekend_min
            tame.weekend_max in
        let (r, e, least, small) = with_noise_lem (pos 1) base b (omega arith) in
        (r, rw (free, drawn) e, rw (weekend_not_peak ts free) least, small)
    | inr work ↦ elim (Bool-cases (is_peak_hour config ts)) [
      | inl peak ↦
          let (base, drawn, b) =
            between_lem config.peak_min_replicas config.peak_max_replicas s tame.peak_min
              tame.peak_max in
          let (base', chosen, b') = burst_lem base b in
          let (r, e, least, small) =
            with_noise_lem config.peak_min_replicas base' b' tame.peak_min_exact in
          (r, rw (work, peak, drawn, chosen) e, rw peak least, small)
      | inr off ↦
          let (base, drawn, b) =
            between_lem config.offpeak_min_replicas config.offpeak_max_replicas s tame.offpeak_min
              tame.offpeak_max in
          let (r, e, least, small) = with_noise_lem (pos 1) base b (omega arith) in
          (r, rw (work, off, drawn) e, rw off least, small)
    ]
  ]

  replica_counts_lem :
      (timestamps : List ℕ) (s : S)
      → (r : List F × S) × (replica_counts host config timestamps s ≡ ok r)
        × Each (IsReplicaCount config) timestamps r.0
  unfolding replica_counts
  replica_counts_lem [] s = (([], s), refl, tt)
  replica_counts_lem (ts ∷ timestamps) s =
      let (count, counted, least, small) = get_replica_count_lem ts s in
      let (rest, later, each) = replica_counts_lem timestamps count.1 in
      (
        (f.of_int count.0 ∷ rest.0, rest.1),
        rw (counted, later) refl,
        ((count.0, refl, least, small), each),
      )

  dataset-IsDataset :
      (timestamps : List ℕ) (s : S)
      → All (λ t. host.timestamp_error t ≡ none) timestamps
      → (made : Dataset F × S) × (dataset host config timestamps s ≡ ok made)
        × IsDataset host config timestamps made.0
  unfolding dataset
  dataset-IsDataset timestamps s stamped =
      let (counted, e, each) = replica_counts_lem timestamps s in
      (
        (
          record {
            unix_timestamps = map host.timestamp timestamps;
            replicas = counted.0;
            rows = rows config timestamps counted.0;
          },
          counted.1,
        ),
        rw (e, first_error-none host.timestamp_error timestamps stamped) refl,
        record {
          unix_lem = refl;
          replicas_lem = each;
          rows_lem = rows_lem config timestamps counted.0 each;
        },
      )

  -- If the draws are numbers in a range where sums can be rounded, from a start whose last day, and a
  -- step after it, end in the calendar, with a step of at least a minute, and if each time between has
  -- a timestamp, as on all days of the calendar but the first, `generate` ends and returns: its times
  -- are all those from the start on, a step apart, that lie in front of the end; each has a count of
  -- replicas, at peak hours no less than the configured minimum and otherwise at least 1; and the rows
  -- of the data frame have the hour, the day and the flags of their times.
  pub generate-IsDataset :
      (now start : ℕ) (s : S)
      → 0 < config.step_minutes
      → start + days config.days + minutes config.step_minutes < 315_537_897_600_000_000
      → ((t : ℕ) → start ≤ t → t < start + days config.days → host.timestamp_error t ≡ none)
      → (made : Dataset F × S) × (n : ℕ) × (generate host config now (some start) s
          ≡ some (ok made))
        × IsCount (start + days config.days) (minutes config.step_minutes) start n
        × IsDataset host config (progression n (minutes config.step_minutes) start) made.0
  unfolding generate start_or_now generate_from
  generate-IsDataset now start s p l stamped =
      let (n, count, ends) = timestamps_of_lem config start p l in
      let (made, e, is) = dataset-IsDataset (progression n (minutes config.step_minutes) start) s (
        progression-All (λ t. host.timestamp_error t ≡ none) n (minutes config.step_minutes) start
          (start + days config.days) stamped count.1) in
      (made, n, rw (ends, e) refl, count, is)
