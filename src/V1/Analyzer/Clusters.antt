-- ===== src/V1/Analyzer/Clusters.antt =====
-- The number of clusters that the search finds.
use Prim.Native.Nat.{min, max}
use smart_hpa.Prelude.{
  ℕ, zero, suc, ◌+◌, ◌-◌, ◌≤◌, Result, ok, raise, ltb, arith, Bool-cases, inl, inr,
}
use smart_hpa.Float.{Float}
use smart_hpa.V1.Config.{AnalysisConfig}
use smart_hpa.V1.Analyzer.{better_of, try_clusters, find_optimal_clusters}

module _ {F : Type 0} ⦃f : Float F⦄ (labels : ℕ → Result ℕ) (silhouette : ℕ → Result F) where
  better_of-bounds :
      (low limit k : ℕ) (best : ℕ × F) (l : Result ℕ) (s : Result F)
      → low ≤ best.0
      → best.0 ≤ limit
      → low ≤ k
      → k ≤ limit
      → (low ≤ (better_of k best l s).0) × ((better_of k best l s).0 ≤ limit)
  better_of-bounds low limit k best (raise e) s h g a b = (h, g)
  better_of-bounds low limit k best (ok n) (raise e) h g a b = (h, g)
  better_of-bounds low limit k best (ok n) (ok score) h g a b = ground arith

  try_clusters-bounds :
      (low limit n k : ℕ) (best : ℕ × F)
      → low ≤ best.0
      → best.0 ≤ limit
      → low ≤ k
      → k + n ≤ limit + 1
      → (low ≤ (try_clusters labels silhouette n k best).0)
        × ((try_clusters labels silhouette n k best).0 ≤ limit)
  unfolding try_clusters
  try_clusters-bounds low limit zero k best h g a b = (h, g)
  try_clusters-bounds low limit (suc n) k best h g a b =
      let (c, d) =
        better_of-bounds low limit k best (labels k) (silhouette k) h g a (omega arith) in
      try_clusters-bounds low limit n (k + 1) (better_of k best (labels k) (silhouette k)) c d
        (omega arith) (omega arith)

  -- Whatever KMeans and the score return or raise, the search ends with a number of clusters from the
  -- configured minimum on, and no greater than that minimum or than the configured maximum and the
  -- number of rows less one.
  pub find_optimal_clusters_lem :
      (minus_one : F) (config : AnalysisConfig F) (rows : ℕ)
      → (config.n_clusters_range.0
          ≤ (find_optimal_clusters labels silhouette minus_one config rows).0)
        × ((find_optimal_clusters labels silhouette minus_one config rows).0
            ≤ max config.n_clusters_range.0 (min config.n_clusters_range.1 (rows - 1)))
  unfolding find_optimal_clusters
  find_optimal_clusters_lem minus_one config rows =
      let min_k = config.n_clusters_range.0 in
      let max_k = min config.n_clusters_range.1 (rows - 1) in
      elim (Bool-cases (ltb max_k min_k)) [
        | inl e ↦ rw e (omega arith)
        | inr e ↦
            let enough : min_k ≤ max_k = ground arith in
            let (a, b) =
              try_clusters-bounds min_k max_k (max_k + 1 - min_k) min_k (min_k, minus_one)
                (omega arith) enough (omega arith) (omega (arith, enough)) in
            rw e (a, omega (arith, b))
      ]
