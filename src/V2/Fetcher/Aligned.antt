-- ===== src/V2/Fetcher/Aligned.antt =====
-- The shape of what the fetcher returns.
use mathlib.Core.Path.{subst}
use mathlib.Core.List.{flat_map}
use smart_hpa.Prelude.{
  ℕ, zero, suc, ◌<◌, ◌≡◌, refl, ap, ◌∙◌, String, List, [], ◌∷◌, map, length, filter, All, Result,
  ok, raise, traverse, Ensures, Ensures-bind, Ensures-then, Ensures-ok, Ensures-unless_error,
  first_error, value_error, if◌then◌else◌, ◌==◌, true, false, not,
}
use smart_hpa.Prelude.Text.{str_eq, concat, decimal}
use smart_hpa.Float.{Float}
use smart_hpa.V2.Config.{PrometheusConfig, FetchConfig, to_label_selector}
use smart_hpa.V2.Data.{ReplicaMetrics}
use smart_hpa.V2.Preprocessor.{update, zeros}
use smart_hpa.V2.Fetcher.{
  Client, select, read_point, aggregate, dated_metrics, build_metrics, empty_metrics,
  parse_response, query_range, try_queries, fetch,
}
use smart_hpa.V2.Fetcher.Select.{
  IsFirstUsable, usable_here, usable_later, no_query_left, try_queries-IsFirstUsable,
}

-- The five arrays have one length, and the hours and days are those of a calendar.
pub record IsAligned {F : Type 0} (m : ReplicaMetrics F) : Type 0 where
  pub values_length : length m.values ≡ length m.timestamps
  pub hours_length : length m.hours ≡ length m.timestamps
  pub days_length : length m.days_of_week ≡ length m.timestamps
  pub dates_length : length m.dates ≡ length m.timestamps
  pub hours_bound : All (λ h. h < 24) m.hours
  pub days_bound : All (λ d. d < 7) m.days_of_week

pub length-map {ℓ κ} :
    {A : Type ℓ} {B : Type κ} (g : A → B) (xs : List A) → length (map g xs) ≡ length xs
length-map g [] = refl
length-map g (x ∷ xs) = ap suc (length-map g xs)

pub length-zeros {ℓ} : {A : Type ℓ} (z : A) (n : ℕ) → length (zeros z n) ≡ n
length-zeros z zero = refl
length-zeros z (suc n) = ap suc (length-zeros z n)

All-map_bound {ℓ} :
    {A : Type ℓ} (n : ℕ) (g : A → ℕ)
    → ((a : A) → g a < n)
    → (xs : List A) → All (λ x. x < n) (map g xs)
All-map_bound n g h [] = tt
All-map_bound n g h (x ∷ xs) = (h x, All-map_bound n g h xs)

update-length {ℓ} :
    {A : Type ℓ} (change : A → Result A) (xs : List A) (i : ℕ)
    → Ensures (λ ys. length ys ≡ length xs) (update change xs i)
unfolding update
update-length change [] i = tt
update-length change (x ∷ xs) zero =
    Ensures-then (λ ys. length ys ≡ suc (length xs)) (change x) (λ y. ok (y ∷ xs)) (λ y. refl)
update-length change (x ∷ xs) (suc i) =
    Ensures-bind (λ ys. length ys ≡ length xs) (λ ys. length ys ≡ suc (length xs))
      (update change xs i) (λ ys. ok (x ∷ ys)) (update-length change xs i) (λ ys e. ap suc e)

module _ {F : Type 0} ⦃f : Float F⦄ (client : Client F) (hour_law : (t : F) → client.hour t < 24)
    (day_law : (t : F) → client.weekday t < 7) where
  aggregate-length :
      (indices : List ℕ) (values out : List F)
      → Ensures (λ ys. length ys ≡ length out) (aggregate client indices values out)
  unfolding aggregate
  aggregate-length [] values out = refl
  aggregate-length (i ∷ indices) [] out = refl
  aggregate-length (i ∷ indices) (v ∷ values) out =
      Ensures-bind (λ ys. length ys ≡ length out) (λ ys. length ys ≡ length out)
        (update (λ old. ok (if f.lt old v then v else old)) out i) (aggregate client indices values)
        (update-length (λ old. ok (if f.lt old v then v else old)) out i)
        λ ys e.
          subst (λ n. Ensures (λ zs. length zs ≡ n) (aggregate client indices values ys)) e
            (aggregate-length indices values ys)

  pub dated_metrics-IsAligned :
      (ts values : List F) → length values ≡ length ts → IsAligned (dated_metrics client ts values)
  dated_metrics-IsAligned ts values e = record {
    values_length = e;
    hours_length = length-map client.hour ts;
    days_length = length-map client.weekday ts;
    dates_length = length-map client.date ts;
    hours_bound = All-map_bound 24 client.hour hour_law ts;
    days_bound = All-map_bound 7 client.weekday day_law ts;
  }

  build_metrics-IsAligned :
      (ts values : List F)
      → length values ≡ length ts
      → Ensures IsAligned (build_metrics client ts values)
  unfolding build_metrics
  build_metrics-IsAligned ts values e =
      Ensures-unless_error IsAligned (first_error client.utc_error ts)
        (dated_metrics client ts values) (dated_metrics-IsAligned ts values e)

  empty_metrics-IsAligned : IsAligned {F = F} empty_metrics
  unfolding empty_metrics
  empty_metrics-IsAligned = record {
    values_length = refl;
    hours_length = refl;
    days_length = refl;
    dates_length = refl;
    hours_bound = tt;
    days_bound = tt;
  }

  -- Whatever the series hold, if the parser returns, its arrays have one length, and their hours and
  -- days are in range if those of the calendar are.
  pub parse_response-IsAligned :
      (result : List (List (F × String))) → Ensures IsAligned (parse_response client result)
  unfolding parse_response
  parse_response-IsAligned result =
      Ensures-then (IsAligned {F = F})
        (traverse (read_point client) (flat_map (λ series. series) result)) _
        λ points.
          let kept = filter (λ p. not (client.is_nan p.1)) points in
          let order = client.argsort (map (λ p. p.0) kept) in
          Ensures-then (IsAligned {F = F}) (select (map (λ p. p.0) kept) order) _ λ timestamps.
            Ensures-then (IsAligned {F = F}) (select (map (λ p. p.1) kept) order) _ λ values.
              let unique = client.unique timestamps in
              Ensures-bind (λ ys. length ys ≡ length (zeros (f.literal 0 0) (length unique.0)))
                IsAligned
                (aggregate client unique.1 values (zeros (f.literal 0 0) (length unique.0))) _
                (aggregate-length unique.1 values (zeros (f.literal 0 0) (length unique.0)))
                λ out e.
                  elim (length points == 0)
                    as (λ b.
                      Ensures IsAligned
                        (if b then ok empty_metrics else build_metrics client unique.0 out)) [
                          | true ↦ empty_metrics-IsAligned
                          | false ↦
                              build_metrics-IsAligned unique.0 out
                                (e ∙ length-zeros (f.literal 0 0) (length unique.0))
                        ]

  pub query_range-IsAligned :
      (query step : String) → Ensures IsAligned (query_range client query step)
  unfolding query_range
  query_range-IsAligned query step = Ensures-then IsAligned (client.get query step) _ λ response.
      elim (str_eq response.status "success")
        as (λ b.
          Ensures IsAligned
            (if b then parse_response client response.result else raise value_error)) [
              | true ↦ parse_response-IsAligned response.result
              | false ↦ tt
            ]

  first_usable-IsAligned :
      (run : String → Result (ReplicaMetrics F)) (sample : ReplicaMetrics F)
      → ((q : String) → Ensures IsAligned (run q))
      → IsAligned sample
      → (queries : List String) (m : ReplicaMetrics F) → IsFirstUsable run sample queries m
      → IsAligned m
  first_usable-IsAligned run sample h s _ _ (usable_here q qs m e full) =
      Ensures-ok IsAligned (run q) m (h q) e
  first_usable-IsAligned run sample h s _ _ (usable_later q qs m u rest) =
      first_usable-IsAligned run sample h s qs m rest
  first_usable-IsAligned run sample h s _ _ no_query_left = s

  -- What `fetch` returns has arrays of one length and hours and days in range, whatever Prometheus
  -- answers, if the calendar's are in range and the sample data is such.
  pub fetch-IsAligned :
      (config : PrometheusConfig) (fetch_config : FetchConfig) (sample : ReplicaMetrics F)
      → IsAligned sample
      → IsAligned (fetch client config fetch_config sample)
  unfolding fetch
  fetch-IsAligned config fetch_config sample s =
      let step = concat (decimal fetch_config.step_minutes ∷ "m" ∷ []) in
      let labels = to_label_selector fetch_config in
      let queries = config.replica_query labels ∷ config.hpa_replica_query labels ∷ [] in
      first_usable-IsAligned (λ query. query_range client query step) sample
        (λ q. query_range-IsAligned q step) s queries
        (try_queries (λ query. query_range client query step) queries sample)
        (try_queries-IsFirstUsable (λ query. query_range client query step) sample queries)
