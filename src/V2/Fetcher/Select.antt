-- ===== src/V2/Fetcher/Select.antt =====
-- `fetch`: which query's answer it returns, and when the sample data.
use smart_hpa.Prelude.{
  ◌≡◌, refl, ◌⊎◌, inl, inr, true, false, String, List, [], ◌∷◌, Result, ok, raise, Error,
  Bool-cases,
}
use smart_hpa.V2.Data.{ReplicaMetrics, is_empty}
use smart_hpa.V2.Fetcher.{try_queries, usable_or}

-- A query that raises or whose answer is empty.
abbrev pub IsUnusable : {F : Type 0} → Result (ReplicaMetrics F) → Type 0
IsUnusable {F} r =
    ((e : Error) × (r ≡ raise e)) ⊎ ((m : ReplicaMetrics F) × (r ≡ ok m) × (is_empty m ≡ true))

-- The result `m` of a search over `queries`: the answer of the first usable query, or the sample if
-- there is none.
pub data IsFirstUsable {F : Type 0} (run : String → Result (ReplicaMetrics F))
    (sample : ReplicaMetrics F) : List String → ReplicaMetrics F → Type 0 where
  usable_here :
      (q : String) (queries : List String) (m : ReplicaMetrics F)
      → run q ≡ ok m
      → is_empty m ≡ false
      → IsFirstUsable run sample (q ∷ queries) m
  usable_later :
      (q : String) (queries : List String) (m : ReplicaMetrics F)
      → IsUnusable (run q)
      → IsFirstUsable run sample queries m
      → IsFirstUsable run sample (q ∷ queries) m
  no_query_left : IsFirstUsable run sample [] sample

module _ {F : Type 0} (run : String → Result (ReplicaMetrics F)) (sample : ReplicaMetrics F) where
  chosen :
      (q : String) (qs : List String) (rest : ReplicaMetrics F) (r : Result (ReplicaMetrics F))
      → run q ≡ r
      → IsFirstUsable run sample qs rest
      → IsFirstUsable run sample (q ∷ qs) (usable_or r rest)
  chosen q qs rest (raise e) k later = usable_later q qs rest (inl (e, k)) later
  chosen q qs rest (ok m) k later = elim (Bool-cases (is_empty m)) [
    | inl empty ↦ rw empty (usable_later q qs rest (inr (m, k, empty)) later)
    | inr full ↦ rw full (usable_here q qs m k full)
  ]

  -- The search over any list of queries ends, whatever the queries raise: its result is the answer of
  -- the first query that answers with data, or the sample data if no query does.
  pub try_queries-IsFirstUsable :
      (queries : List String) → IsFirstUsable run sample queries (try_queries run queries sample)
  unfolding try_queries
  try_queries-IsFirstUsable [] = no_query_left
  try_queries-IsFirstUsable (q ∷ qs) =
      chosen q qs (try_queries run qs sample) (run q) refl (try_queries-IsFirstUsable qs)
