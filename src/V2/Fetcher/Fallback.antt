-- ===== src/V2/Fetcher/Fallback.antt =====
-- `fetch` with the sample data: where it ends, and that what it returns is aligned.
use mathlib.Core.List.{zip_with}
use mathlib.Core.Path.{subst}
use smart_hpa.Prelude.{
  ℕ, suc, ◌+◌, ◌-◌, ◌/◌, ◌<◌, ◌≤◌, ◌≡◌, refl, ap, sym, ◌∙◌, ◌&&◌, false, String, List, [], ◌∷◌, map,
  length, none, some, Result, ok, All, All-imp, first_error-none, ltb, leb, Returns, Bool-cases,
  Result-cases, Option-cases, inl, inr, arith,
}
use smart_hpa.Prelude.Text.{concat, decimal}
use smart_hpa.Float.{Float}
use smart_hpa.Host.{Host}
use smart_hpa.Clock.{days, minutes, sub_delta}
use smart_hpa.Clock.Ticks.{progression, progression-All, ticks-progression}
use smart_hpa.V2.Config.{PrometheusConfig, FetchConfig, to_label_selector}
use smart_hpa.V2.Data.{ReplicaMetrics, is_empty}
use smart_hpa.V2.Fetcher.{Client, dated_metrics, build_metrics, query_range, try_queries, fetch}
use smart_hpa.V2.Fetcher.Sample.{
  first_usable, sample_burst, sample_value, sample_values, sample_metrics, generate_sample_data,
  fetch_at,
}
use smart_hpa.V2.Fetcher.Aligned.{IsAligned, length-map, dated_metrics-IsAligned, fetch-IsAligned}

-- The two ways to write the search over the queries.
try_queries-first_usable :
    {F : Type 0} (run : String → Result (ReplicaMetrics F)) (sample : ReplicaMetrics F)
    (queries : List String)
    → try_queries run queries sample
      ≡ elim (first_usable run queries) [ none ↦ sample | some metrics ↦ metrics ]
unfolding try_queries first_usable
try_queries-first_usable run sample [] = refl
try_queries-first_usable {F} run sample (q ∷ qs) =
    let later = try_queries-first_usable run sample qs in
    elim (Result-cases (run q)) [
      | inr failed ↦ rw failed.1 later
      | inl answer ↦ elim (Bool-cases (is_empty answer.0)) [
        | inl empty ↦ rw (answer.1, empty) later
        | inr full ↦ rw (answer.1, full) refl
      ]
    ]

-- What is documented of the random generator: it can be seeded with 32 bits, it draws from a small
-- range that is not empty, and an array of draws has the length that is asked for.
pub record IsGenerator {F : Type 0} {S : Type 0} ⦃f : Float F⦄ (host : Host F S) : Type 0 where
  pub seed_law : (n : ℕ) (s : S) → n < 4_294_967_296 → Returns (host.seed (some n) s)
  pub uniform_law :
      (low high : ℕ) (s : S)
      → low < high
      → high ≤ 100
      → Returns (host.uniform (f.literal low 0) (f.literal high 0) s)
  pub normals_law :
      (n : ℕ) (s : S)
      → (v : List F × S) × (host.normals (f.literal 0 0) (f.literal 3 1) n s ≡ ok v)
        × (length v.0 ≡ n)

length-zip_with {ℓ} :
    {A : Type ℓ} (g : A → A → A) (xs ys : List A)
    → length xs ≡ length ys
    → length (zip_with g xs ys) ≡ length ys
unfolding zip_with
length-zip_with g [] [] e = refl
length-zip_with g [] (y ∷ ys) e = e
length-zip_with g (x ∷ xs) [] e = absurd (omega arith)
length-zip_with g (x ∷ xs) (y ∷ ys) e = ap suc (length-zip_with g xs ys (omega arith))

module _ {F : Type 0} {S : Type 0} ⦃f : Float F⦄ (client : Client F) (host : Host F S)
    (generator : IsGenerator host) where
  open generator use {seed_law, uniform_law, normals_law}

  sample_burst-Returns : (base : F × S) → Returns (sample_burst client host base)
  unfolding sample_burst
  sample_burst-Returns base = elim (Bool-cases (f.lt (host.random base.1).0 (f.literal 10 2))) [
    | inl e ↦ rw e (uniform_law 10 15 (host.random base.1).1 (omega arith) (omega arith))
    | inr e ↦ rw e ((base.0, (host.random base.1).1), refl)
  ]

  sample_value-Returns : (ts : F) (s : S) → Returns (sample_value client host ts s)
  unfolding sample_value
  sample_value-Returns ts s = elim (Bool-cases (leb 5 (client.weekday ts))) [
    | inl e ↦ rw e (uniform_law 1 3 s (omega arith) (omega arith))
    | inr e ↦ elim (Bool-cases (leb 9 (client.hour ts) && ltb (client.hour ts) 17)) [
      | inl peak ↦
          let (base, drawn) = uniform_law 3 6 s (omega arith) (omega arith) in
          let (v, chosen) = sample_burst-Returns base in (v, rw (e, peak, drawn) chosen)
      | inr off ↦ rw (e, off) (uniform_law 1 3 s (omega arith) (omega arith))
    ]
  ]

  sample_values_lem :
      (timestamps : List F) (s : S)
      → (r : List F × S) × (sample_values client host timestamps s ≡ ok r)
        × (length r.0 ≡ length timestamps)
  unfolding sample_values
  sample_values_lem [] s = (([], s), refl, refl)
  sample_values_lem (ts ∷ timestamps) s =
      let (v, e) = sample_value-Returns ts s in
      let (rest, es, same) = sample_values_lem timestamps v.1 in
      ((v.0 ∷ rest.0, rest.1), rw (e, es) refl, ap suc same)

  -- `timestamp` of the time returns, and `utcfromtimestamp` of that.
  abbrev pub IsStamped : ℕ → Type 0
  IsStamped t = (host.timestamp_error t ≡ none) × (client.utc_error (host.timestamp t) ≡ none)

  module _ (hour_law : (t : F) → client.hour t < 24)
      (day_law : (t : F) → client.weekday t < 7) where
    sample_metrics-IsAligned :
        (timestamps : List F) (s : S)
        → All (λ t. client.utc_error t ≡ none) timestamps
        → (r : ReplicaMetrics F × S) × (sample_metrics client host timestamps s ≡ ok r)
          × IsAligned r.0
    unfolding sample_metrics build_metrics
    sample_metrics-IsAligned timestamps s dated =
        let (values, e, lv) = sample_values_lem timestamps s in
        let (noise, n, ln) = normals_law (length timestamps) values.1 in
        let noisy = zip_with f.add values.0 noise.0 in
        let rounded = map (λ v. f.maximum (f.literal 1 0) (host.rint v)) noisy in
        (
          (dated_metrics client timestamps rounded, noise.1),
          rw (e, n, first_error-none client.utc_error timestamps dated) refl,
          dated_metrics-IsAligned client hour_law day_law timestamps rounded (
              length-map (λ v. f.maximum (f.literal 1 0) (host.rint v)) noisy
              ∙ (length-zip_with f.add values.0 noise.0 (lv ∙ sym ln) ∙ ln)),
        )

    stamps_dated :
        (times : List ℕ)
        → All IsStamped times
        → All (λ x. client.utc_error x ≡ none) (map host.timestamp times)
    stamps_dated [] h = tt
    stamps_dated (t ∷ times) h = (h.0.1, stamps_dated times h.1)

    generate_sample_data-IsAligned :
        (start end step_minutes : ℕ) (s : S)
        → 0 < step_minutes
        → end + minutes step_minutes < 315_537_897_600_000_000
        → ((t : ℕ) → start ≤ t → t < end → IsStamped t)
        → (r : ReplicaMetrics F × S) × (generate_sample_data client host start end step_minutes s
            ≡ some (ok r))
          × IsAligned r.0
    unfolding generate_sample_data
    generate_sample_data-IsAligned start end step_minutes s p l stamped =
        let (seeded, e) = seed_law 42 s (omega arith) in
        let (n, count, ends) =
          ticks-progression (minutes 1) (suc (end / 60_000_000)) end (minutes step_minutes) start
            (omega arith) (omega arith) (omega arith) (omega arith) in
        let times = progression n (minutes step_minutes) start in
        let each = progression-All IsStamped n (minutes step_minutes) start end stamped count.1 in
        let (r, made, aligned) =
          sample_metrics-IsAligned (map host.timestamp times) seeded (stamps_dated times each) in
        (
          r,
          rw
              (
                e,
                ends,
                first_error-none host.timestamp_error times (All-imp (λ t h. h.0) times each),
              )
              (ap some made),
          aligned,
        )

    -- If numpy and the calendar do what is documented, at a time with the days to fetch before it and a
    -- step after it in the calendar, with a step of at least a minute, and if each time between the start
    -- and then has a timestamp, as on all days of the calendar but the first, that is a time again:
    -- `fetch` ends and returns, whatever Prometheus answers and whatever is raised on the way to its data.
    -- It is the answer of the first query that has data, or else the sample data, in arrays of one length
    -- with hours and days in range.
    pub fetch_at-IsAligned :
        (config : PrometheusConfig) (fetch_config : FetchConfig) (now : ℕ) (s : S)
        → 0 < fetch_config.step_minutes
        → days fetch_config.days ≤ now
        → now + minutes fetch_config.step_minutes < 315_537_897_600_000_000
        → ((t : ℕ) → now - days fetch_config.days ≤ t → t < now → IsStamped t)
        → (r sample : ReplicaMetrics F × S) × (fetch_at client host config fetch_config now s
            ≡ some (ok r))
          × (generate_sample_data client host
                (now - days fetch_config.days)
                now
                fetch_config.step_minutes
                s
              ≡ some (ok sample))
          × (r.0 ≡ fetch client config fetch_config sample.0)
          × IsAligned r.0
    unfolding fetch_at fetch sub_delta
    fetch_at-IsAligned config fetch_config now s p d l stamped =
        let step = concat (decimal fetch_config.step_minutes ∷ "m" ∷ []) in
        let labels = to_label_selector fetch_config in
        let queries = config.replica_query labels ∷ config.hpa_replica_query labels ∷ [] in
        let run : String → Result (ReplicaMetrics F) = λ query. query_range client query step in
        let (sample, made, aligned) =
          generate_sample_data-IsAligned (now - days fetch_config.days) now
            fetch_config.step_minutes s p l stamped in
        let early : ltb now (days fetch_config.days) ≡ false = ground arith in
        let found = try_queries-first_usable run sample.0 queries in
        let whole : IsAligned (fetch client config fetch_config sample.0) =
          fetch-IsAligned client hour_law day_law config fetch_config sample.0 aligned in
        elim (Option-cases (first_usable run queries)) [
          | inl nothing ↦
              let same : sample.0 ≡ fetch client config fetch_config sample.0 =
                sym (rw nothing at found) in
              (sample, sample, rw (early, nothing) made, made, same, aligned)
          | inr usable ↦
              let (m, e) = usable in
              let same : m ≡ fetch client config fetch_config sample.0 = sym (rw e at found) in
              ((m, s), sample, rw (early, e) refl, made, same, subst IsAligned (sym same) whole)
        ]
