-- ===== src/V1/Analyzer/Extract.antt =====
-- The features of ml/pattern_analyzer.py, and the patterns of its clusters.
use Prim.Native.Nat.{min, max}
use mathlib.Core.List.{foldl, flat_map}
use smart_hpa.Prelude.{
  ℕ, ◌<◌, ◌≤◌, ◌≡◌, refl, ◌↔◌, ◌+◌, ◌*◌, ◌%◌, inl, inr, Bool, true, false, not, ◌||◌, List, [], ◌∷◌,
  map, length, range, All, All-forall, ok, traverse-All, ◌>>=◌, Returns, Bool-cases, foldl-min, ltb,
  ◌==◌, if◌then◌else◌, arith,
}
use smart_hpa.Prelude.Int.{pos}
use smart_hpa.Prelude.Sort.{All-sorted}
use smart_hpa.Clock.{weekday}
use smart_hpa.Float.{Float}
use smart_hpa.V1.Config.{AnalysisConfig}
use smart_hpa.V1.Naming.{TimePattern}
use smart_hpa.V1.Analyzer.Distinct.{All-distinct}
use smart_hpa.V1.Analyzer.Valid.{IsValid, foldl-max_below}
use smart_hpa.V1.Analyzer.{slot_times, distinct}
use smart_hpa.V2.Fetcher.Aligned.{length-map}
use smart_hpa.V1.Analyzer.Clusters.{find_optimal_clusters_lem}
use smart_hpa.V1.Analyzer.Library.{
  IsNumber, IsFeature, IsSlot, IsLibrary, All-flat, All-map, feature_values-All,
}
use smart_hpa.V1.Analyzer.Tables.{Unified, Featured, Slot, Present, Tools}
use smart_hpa.V1.Analyzer.Detect.{
  time_features, column_or, cluster_pattern, extract_pattern, patterns_of, cluster_rows,
  cluster_patterns, best_clusters, feature_values, detect_patterns,
}

-- The features of a row are those of its time: the slot is the quarter of an hour of the day in which the
-- time lies, to the microsecond, the hour and the minute are those of that day's time, and the day is
-- the time's day of the week, at the weekend from 5 on. The slot's start, as `slot_times` gives it, is in
-- that hour and no later than that minute, less than a quarter of an hour before it.
pub time_features_lem :
    {F : Type 0} ⦃f : Float F⦄ (tools : Tools F) (row : Unified F)
    → let features = time_features tools row in
      let time = row.timestamp % 86_400_000_000 in
      let start = (slot_times features.time_slot features.time_slot).0 in
      (features.unified ≡ row)
      × (features.time_slot * 900_000_000 ≤ time)
      × (time < (features.time_slot + 1) * 900_000_000)
      × (features.hour * 3_600_000_000 + features.minute * 60_000_000 ≤ time)
      × (time < features.hour * 3_600_000_000 + features.minute * 60_000_000 + 60_000_000)
      × (features.minute < 60)
      × (features.day_of_week ≡ weekday row.timestamp)
      × (start.0 ≡ features.hour)
      × (start.1 ≤ features.minute)
      × (features.minute < start.1 + 15)
      × ((features.is_weekend ≡ 1) ↔ (5 ≤ features.day_of_week))
unfolding time_features slot_times
time_features_lem tools row = ground arith

-- The start of a first slot and the end of a last slot are times of a day.
slot_times_clock :
    (a b : ℕ)
    → a < 96
    → b < 96
    → ((slot_times a b).0.0 < 24)
      × ((slot_times a b).0.1 < 60)
      × ((slot_times a b).1.0 < 24)
      × ((slot_times a b).1.1 < 60)
unfolding slot_times
slot_times_clock a b l k = ground arith

module _ {F : Type 0} ⦃f : Float F⦄ (tools : Tools F) (IsFinite : F → Type 0)
    (library : IsLibrary tools IsFinite) where
  pub features-IsFeature :
      (rows : List (Unified F))
      → All (IsNumber IsFinite) rows
      → All (IsFeature tools IsFinite) (map (time_features tools) rows)
  unfolding time_features
  features-IsFeature [] h = tt
  features-IsFeature (r ∷ rs) h =
      ((omega arith, omega arith, h.0.0, h.0.1, h.0.2), features-IsFeature rs h.1)

  column_peak :
      (there : Bool) (x : F) (xs : List F)
      → IsFinite x
      → All IsFinite xs
      → Returns (f.int (f.ceil (f.amax (column_or tools there (x ∷ xs) (f.of_int (pos 1))))))
  column_peak true x xs h k = library.peak_law x xs h k
  column_peak false x xs h k = library.peak_law (f.of_int (pos 1)) [] library.one_law tt

  extract_pattern-IsValid :
      (columns : Present) (slot : Slot F) (slots : List (Slot F))
      → All (IsSlot tools IsFinite) (slot ∷ slots)
      → (p : TimePattern F) × (extract_pattern tools columns (slot ∷ slots) ≡ ok p) × IsValid p
  unfolding extract_pattern
  extract_pattern-IsValid columns slot slots h =
      let times = map (λ (s : Slot F). s.time_slot) slots in
      let (peak, e) =
        column_peak columns.has_replicas slot.replicas_mean (map (λ s. s.replicas_mean) slots) h.0.2
          (All-map (IsSlot tools IsFinite) IsFinite (λ s. s.replicas_mean) (λ s k. k.2) slots
            h.1) in
      let low = (foldl-min slot.time_slot times).0 in
      let below = h.0.1 in
      let high = foldl-max_below 96 slot.time_slot times below (
        All-map (IsSlot tools IsFinite) (λ t. t < 96) (λ (s : Slot F). s.time_slot) (λ s k. k.1)
          slots h.1) in
      let (a, b, c, d) =
        slot_times_clock (foldl min slot.time_slot times) (foldl max slot.time_slot times)
          (omega (arith, low, below)) high in
      let on =
        All-map (IsSlot tools IsFinite) (λ t. t < 7) (λ (s : Slot F). s.day_of_week) (λ s k. k.0)
          (slot ∷ slots) h in
      (
        cluster_pattern tools columns (slot ∷ slots) (foldl min slot.time_slot times)
            (foldl max slot.time_slot times) peak,
        rw e refl,
        (
          a,
          b,
          c,
          d,
          All-sorted (λ x y. ltb y x) (λ t. t < 7)
              (distinct (map (λ (s : Slot F). s.day_of_week) (slot ∷ slots)))
              (All-distinct (λ t. t < 7) (map (λ (s : Slot F). s.day_of_week) (slot ∷ slots)) on),
        ),
      )

  patterns_of-IsValid :
      (columns : Present) (slots : List (Slot F))
      → All (IsSlot tools IsFinite) slots
      → (ps : List (TimePattern F)) × (patterns_of tools columns slots ≡ ok ps) × All IsValid ps
  unfolding patterns_of
  patterns_of-IsValid columns [] h = ([], refl, tt)
  patterns_of-IsValid columns (slot ∷ slots) h =
      let (p, e, v) = extract_pattern-IsValid columns slot slots h in (p ∷ [], rw e refl, (v, tt))

  All-cluster_rows :
      (P : Slot F → Type 0) (id : ℕ) (slots : List (Slot F)) (clusters : List ℕ)
      → All P slots
      → All P (cluster_rows tools id slots clusters)
  All-cluster_rows P id [] clusters h = tt
  All-cluster_rows P id (s ∷ slots) [] h = tt
  All-cluster_rows P id (s ∷ slots) (c ∷ clusters) h =
      elim (c == id)
        as (λ b. All P (
          if b
          then s ∷ cluster_rows tools id slots clusters
          else cluster_rows tools id slots clusters)) [
            | true ↦ (h.0, All-cluster_rows P id slots clusters h.1)
            | false ↦ All-cluster_rows P id slots clusters h.1
          ]

  cluster_patterns-IsValid :
      (columns : Present) (grouped : List (Slot F)) (clusters : List ℕ) (best_k : ℕ)
      → All (IsSlot tools IsFinite) grouped
      → (ps : List (TimePattern F)) × (cluster_patterns tools columns grouped clusters best_k
          ≡ ok ps)
        × All IsValid ps
  unfolding cluster_patterns
  cluster_patterns-IsValid columns grouped clusters best_k h =
      let (pss, e, v) =
        traverse-All (All IsValid)
          (λ id. patterns_of tools columns (cluster_rows tools id grouped clusters))
          (range 0 best_k)
          (All-forall
            (λ id.
              patterns_of-IsValid columns (cluster_rows tools id grouped clusters)
                (All-cluster_rows (IsSlot tools IsFinite) id grouped clusters h))
            (range 0 best_k)) in
      (flat_map (λ ps. ps) pss, rw e refl, All-flat IsValid pss v)

  -- The number of clusters is no greater than that of the rows.
  best_clusters_lem :
      (minus_one : F) (config : AnalysisConfig F) (scaled : List (List F))
      → 1 ≤ config.n_clusters_range.0
      → config.n_clusters_range.0 ≤ 3
      → 3 ≤ length scaled
      → (1 ≤ best_clusters tools minus_one config scaled)
        × (best_clusters tools minus_one config scaled ≤ length scaled)
  unfolding best_clusters
  best_clusters_lem minus_one config scaled low high many =
      let (a, b) =
        find_optimal_clusters_lem
          (λ k. tools.fit_predict scaled k >>= λ labels. ok (length (distinct labels)))
          (λ k. tools.fit_predict scaled k >>= λ labels. tools.silhouette scaled labels) minus_one
          config (length scaled) in
      (omega (arith, a), omega (arith, b))

  pub detect_patterns-IsValid :
      (minus_one : F) (config : AnalysisConfig F) (columns : Present) (rows : List (Featured F))
      → 1 ≤ config.n_clusters_range.0
      → config.n_clusters_range.0 ≤ 3
      → All (IsFeature tools IsFinite) rows
      → (ps : List (TimePattern F)) × (detect_patterns tools minus_one config columns rows ≡ ok ps)
        × All IsValid ps
  unfolding detect_patterns
  detect_patterns-IsValid minus_one config columns rows low high h =
      let grouped = tools.group rows in
      let slots = library.group_law rows h in
      let xs = map (feature_values tools columns) grouped in
      elim (Bool-cases (not (columns.has_cpu || (columns.has_memory || columns.has_replicas)))) [
        | inl n ↦ ([], rw n refl, tt)
        | inr y ↦ elim (Bool-cases (ltb (length grouped) 3)) [
          | inl few ↦ ([], rw (y, few) refl, tt)
          | inr many ↦
              let enough : 3 ≤ length grouped = ground arith in
              let size = length-map (feature_values tools columns) grouped in
              let (scaled, s, kept, finite) = library.scale_law xs (omega (arith, size)) (
                All-map (IsSlot tools IsFinite) (All IsFinite) (feature_values tools columns)
                  (feature_values-All tools IsFinite columns) grouped slots) in
              let best_k = best_clusters tools minus_one config scaled in
              let (positive, bounded) =
                best_clusters_lem minus_one config scaled low high (omega (arith, size, kept)) in
              let (clusters, c) = library.fit_law scaled best_k positive bounded finite in
              let (ps, e, v) = cluster_patterns-IsValid columns grouped clusters best_k slots in
              (ps, rw (y, many, s, c) e, v)
        ]
      ]
