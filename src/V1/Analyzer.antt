-- ===== src/V1/Analyzer.antt =====
-- ml/pattern_analyzer.py: the steps of `PatternAnalyzer` on numbers of clusters, time slots and
-- patterns. The data frames of pandas and the clustering of scikit-learn are not part of the repository.
pub mod Slots
pub mod Clusters
pub mod Distinct
pub mod Group
pub mod Merge
pub mod Refine
pub mod Tables
pub mod Library
pub mod Detect
pub mod Extract
pub mod Valid
pub mod Analyze
use Prim.Native.Nat.{min, max}
use mathlib.Core.List.{foldl, flat_map}
use smart_hpa.Prelude.{
  ℕ, ◌+◌, ◌-◌, ◌*◌, ◌/◌, ◌%◌, suc, zero, Bool, true, false, not, ◌&&◌, ◌||◌, List, [], ◌∷◌, map,
  length, filter, Result, ok, raise, traverse, ◌>>=◌, ltb, leb, ◌==◌, if◌then◌else◌, Error,
}
use smart_hpa.Prelude.Int.{ℤ, pos, ◌-ℤ◌, max_ℤ}
use smart_hpa.Prelude.Sort.{sorted}
use smart_hpa.Float.{Float}
use smart_hpa.V1.Config.{AnalysisConfig}
use smart_hpa.V1.Naming.{TimePattern}

-- The start and the end of a pattern from its first and its last slot of 15 minutes, each an hour and a
-- minute.
unfoldable pub slot_times : ℕ → ℕ → (ℕ × ℕ) × (ℕ × ℕ)
slot_times start_slot end_slot =
    let end_hour = end_slot / 4 in
    let end_minute = (end_slot % 4 + 1) * 15 in
    let carried = (if leb 60 end_minute then (end_hour + 1, 0) else (end_hour, end_minute)) in
    ((start_slot / 4, (start_slot % 4) * 15), (if leb 24 carried.0 then (23, 59) else carried))

-- `x in xs`
abbrev pub elem : ℕ → List ℕ → Bool
elem n [] = false
elem n (x ∷ xs) = (n == x) || elem n xs

-- `set(xs) <= set(ys)`
abbrev pub subset : List ℕ → List ℕ → Bool
subset [] ys = true
subset (x ∷ xs) ys = elem x ys && subset xs ys

-- `set(xs)`, as a list in which each element stands once.
abbrev pub distinct : List ℕ → List ℕ
distinct [] = []
distinct (x ∷ xs) = let rest = distinct xs in if elem x xs then rest else x ∷ rest

-- `max` of integers.
abbrev pub greatest : ℤ → List ℤ → ℤ
greatest = foldl max_ℤ

-- A row of the data frame, with the hour, the day and the mean of the replicas.
pub record Row (F : Type 0) : Type 0 where
  pub hour : ℕ
  pub day_of_week : ℕ
  pub replicas_mean : F

module _ {F : Type 0} ⦃f : Float F⦄ where
  open f use {literal, add, sub, div, abs, lt, of_int, mean, amax, int, ceil}

  -- One turn of the loop over the numbers of clusters, with the number of distinct labels that KMeans
  -- finds for `k` clusters and their score; after an exception the best so far stays.
  abbrev pub better_of : ℕ → ℕ × F → Result ℕ → Result F → ℕ × F
  better_of k best (ok labels) (ok score) =
      if ltb labels 2 then best else if lt best.1 score then (k, score) else best
  better_of k best _ _ = best

  -- The loop from `k` on, over `n` numbers.
  unfoldable pub try_clusters : (ℕ → Result ℕ) → (ℕ → Result F) → ℕ → ℕ → ℕ × F → ℕ × F
  try_clusters labels silhouette zero k best = best
  try_clusters labels silhouette (suc n) k best =
      try_clusters labels silhouette n (k + 1) (better_of k best (labels k) (silhouette k))

  -- `rows` is the length of the matrix, which is at least 3 where this is called; `minus_one` is the
  -- float -1, with which the search begins.
  unfoldable pub find_optimal_clusters :
      (ℕ → Result ℕ) → (ℕ → Result F) → F → AnalysisConfig F → ℕ → ℕ × F
  unfolding try_clusters
  find_optimal_clusters labels silhouette minus_one config rows =
      let min_k = config.n_clusters_range.0 in
      let max_k = min (config.n_clusters_range.1) (rows - 1) in
      if ltb max_k min_k
      then (min_k, literal 0 0)
      else try_clusters labels silhouette (max_k + 1 - min_k) min_k (min_k, minus_one)

  -- The same days, averages that differ by less than 2, and hours that overlap.
  unfoldable pub are_similar : TimePattern F → TimePattern F → Bool
  are_similar p q =
      (subset p.days q.days && subset q.days p.days)
      && (lt (abs (sub p.avg_replicas q.avg_replicas)) (literal 2 0)
          && (leb p.start_hour q.end_hour && leb q.start_hour p.end_hour))

  -- The inner loop of `_merge_similar_patterns` for the pattern `p`, from place `j` on: the similar
  -- patterns, and the set `used` after it.
  unfoldable pub gather :
      List ℕ → TimePattern F → ℕ → List (TimePattern F) → List (TimePattern F) × List ℕ
  unfolding are_similar
  gather used p j [] = ([], used)
  gather used p j (q ∷ qs) =
      let taken = gather (j ∷ used) p (suc j) qs in
      let left = gather used p (suc j) qs in
      if not (elem j used) && are_similar p q then (q ∷ taken.0, taken.1) else left

  -- `_merge_pattern_group` of the patterns `p` and `ps`.
  unfoldable pub merge_pattern_group : TimePattern F → List (TimePattern F) → TimePattern F
  unfolding max_ℤ
  merge_pattern_group p ps = record {
    start_hour = foldl min p.start_hour (map (λ q. q.start_hour) ps);
    start_minute = foldl min p.start_minute (map (λ q. q.start_minute) ps);
    end_hour = foldl max p.end_hour (map (λ q. q.end_hour) ps);
    end_minute = foldl max p.end_minute (map (λ q. q.end_minute) ps);
    days = sorted (λ x y. ltb y x) (distinct (flat_map (λ q. q.days) (p ∷ ps)));
    avg_cpu = mean (map (λ q. q.avg_cpu) (p ∷ ps));
    avg_memory = mean (map (λ q. q.avg_memory) (p ∷ ps));
    avg_replicas = mean (map (λ q. q.avg_replicas) (p ∷ ps));
    peak_replicas = greatest p.peak_replicas (map (λ q. q.peak_replicas) ps);
    confidence = mean (map (λ q. q.confidence) (p ∷ ps));
  }

  -- The pattern alone, or the merged group of more than one.
  unfoldable pub merged : TimePattern F → List (TimePattern F) → TimePattern F
  unfolding merge_pattern_group
  merged p [] = p
  merged p (q ∷ qs) = merge_pattern_group p (q ∷ qs)

  -- The outer loop, from place `i` on.
  unfoldable pub merge_from : List ℕ → ℕ → List (TimePattern F) → List (TimePattern F)
  unfolding gather merged
  merge_from used i [] = []
  merge_from used i (p ∷ ps) =
      let found = gather used p (suc i) ps in
      let skipped = merge_from used (suc i) ps in
      let rest = merge_from (i ∷ found.1) (suc i) ps in
      if elem i used then skipped else merged p found.0 ∷ rest

  unfoldable pub merge_similar_patterns : List (TimePattern F) → List (TimePattern F)
  unfolding merge_from
  merge_similar_patterns ps = if leb (length ps) 1 then ps else merge_from [] 0 ps

  unfoldable pub duration_hours : TimePattern F → F
  unfolding ◌-ℤ◌
  duration_hours p =
      add (of_int (pos p.end_hour -ℤ pos p.start_hour))
        (div (of_int (pos p.end_minute -ℤ pos p.start_minute)) (of_int (pos 60)))

  -- The mask of `_refine_patterns`.
  unfoldable pub row_matches : TimePattern F → Row F → Bool
  row_matches p row =
      leb p.start_hour row.hour && (leb row.hour p.end_hour && elem row.day_of_week p.days)

  -- One turn of the loop; `has_replicas` says whether the frame has the column "replicas_mean".
  unfoldable pub refine_pattern :
      AnalysisConfig F → Bool → List (Row F) → TimePattern F → Result (List (TimePattern F))
  unfolding duration_hours row_matches
  refine_pattern config has_replicas rows p =
      let matching = filter (row_matches p) rows in
      let means = map (λ (row : Row F). row.replicas_mean) matching in
      let recalculated : Result (List (TimePattern F)) = (do
        peak ← int (ceil (amax means))
        ok (record p { avg_replicas = mean means; peak_replicas = peak } ∷ [])) in
      if lt (duration_hours p) config.min_pattern_duration_hours
      then ok []
      else if ltb (length matching) 10
      then ok []
      else if has_replicas
      then recalculated
      else ok (p ∷ [])

  unfoldable pub refine_patterns :
      AnalysisConfig F → Bool → List (Row F) → List (TimePattern F) → Result (List (TimePattern F))
  unfolding refine_pattern
  refine_patterns config has_replicas rows patterns = do
    refined ← traverse (refine_pattern config has_replicas rows) patterns
    ok (flat_map (λ ps. ps) refined)
