-- ===== src/V2/Synthetic/RoundTrip.antt =====
-- What `save_to_json` writes, `_parse_response` reads back.
use mathlib.Core.List.{flat_map, append_assoc, append-nil}
use smart_hpa.Prelude.{
  none, first_error-none, ℕ, suc, ◌+◌, ◌-◌, ◌<◌, ◌≡◌, refl, Bool, true, false, not, List, [], ◌∷◌,
  ◌++◌, map, length, length-append, Result, ok, traverse, range, range_from, filter, All, Pairs,
  ◌==◌, if◌then◌else◌, arith,
}
use smart_hpa.Prelude.Int.{pos}
use smart_hpa.Float.{Float}
use smart_hpa.Host.{Host}
use smart_hpa.V2.Preprocessor.{update, zeros}
use smart_hpa.V2.Fetcher.{
  Client, select, read_point, value_or_nan, aggregate, dated_metrics, build_metrics, empty_metrics,
  parse_response,
}
use smart_hpa.V2.Fetcher.Aligned.{length-map}
use smart_hpa.V2.Synthetic.Saved.{
  IsExact, IsUtc, unix, select-range, written, read_time, read_count,
}

update_last {ℓ} :
    {A : Type ℓ} (change : A → Result A) (front : List A) (x y : A) (rest : List A)
    → change x ≡ ok y
    → update change (front ++ x ∷ rest) (length front) ≡ ok (front ++ y ∷ rest)
unfolding update
update_last change [] x y rest e = rw e refl
update_last change (z ∷ front) x y rest e = rw (update_last change front x y rest e) refl

pub map-map {ℓ κ μ} :
    {A : Type ℓ} {B : Type κ} {C : Type μ} (g : B → C) (h : A → B) (xs : List A)
    → map g (map h xs) ≡ map (λ x. g (h x)) xs
map-map g h [] = refl
map-map g h (x ∷ xs) = rw (map-map g h xs) refl

filter-All {ℓ} :
    {A : Type ℓ} (p : A → Bool) (xs : List A) → All (λ x. p x ≡ true) xs → filter p xs ≡ xs
filter-All p [] h = refl
filter-All p (x ∷ xs) h = rw (h.0, filter-All p xs h.1) refl

-- A time and a count that floats hold exactly, the count above zero.
abbrev pub IsSaved : ℕ × ℕ → Type 0
IsSaved p = IsExact (unix p.0) × IsExact p.1 × (0 < p.1)

-- The points that are kept: all of them.
abbrev points : {F : Type 0} ⦃f : Float F⦄ → List (ℕ × ℕ) → List (F × F)
points ps = map (λ p. (read_time p, read_count p)) ps

abbrev pub seconds : List (ℕ × ℕ) → List ℕ
seconds ps = map (λ p. unix p.0) ps

-- Without points there is nothing to read.
empty_or_built :
    {F : Type 0} ⦃f : Float F⦄ (client : Client F) (ps : List (ℕ × ℕ))
    → All (λ x. client.utc_error x ≡ none) (map read_time ps)
    → (if length (points {F = F} ps) == 0
        then ok empty_metrics
        else build_metrics client (map read_time ps) (map read_count ps))
      ≡ ok (dated_metrics client (map read_time ps) (map read_count ps))
unfolding empty_metrics build_metrics
empty_or_built client [] h = refl
empty_or_built {F} client (p ∷ ps) h =
    let some_points : (suc (length (points {F = F} ps)) == 0) ≡ false = ground arith in
    rw (some_points, h.0, first_error-none client.utc_error (map read_time ps) h.1) refl

module _ {F : Type 0} {S : Type 0} ⦃f : Float F⦄ (client : Client F) (host : Host F S)
    (utc : IsUtc client host) where
  -- Values above zero take the places of the zeros.
  aggregate_from :
      (front values : List F) (k : ℕ)
      → k ≡ length front
      → All (λ v. f.lt (f.literal 0 0) v ≡ true) values
      → aggregate client
          (range_from k (length values))
          values
          (front ++ zeros (f.literal 0 0) (length values))
        ≡ ok (front ++ values)
  unfolding aggregate
  aggregate_from front [] k e h = refl
  aggregate_from front (v ∷ values) k e h =
      let zero_of = f.literal 0 0 in
      let placed =
        update_last (λ old. ok (if f.lt old v then v else old)) front zero_of v
          (zeros zero_of (length values)) (rw h.0 refl) in
      let next : k + 1 ≡ length (front ++ v ∷ []) = omega (arith, length-append front (v ∷ [])) in
      let later =
        rw
          (
            append_assoc front (v ∷ []) (zeros zero_of (length values)),
            append_assoc front (v ∷ []) values,
          )
          at (aggregate_from (front ++ v ∷ []) values (k + 1) next h.1) in
      rw (e, placed, ← e) later

  read_value :
      (p : ℕ × ℕ) → IsSaved p → value_or_nan client (written {F = F} p).1 ≡ ok (read_count p)
  unfolding value_or_nan
  read_value p h = rw (value_or_nan, utc.parse_law p.1 h.1) refl

  read_points :
      (ps : List (ℕ × ℕ))
      → All IsSaved ps
      → traverse (read_point client) (map written ps)
        ≡ ok (map (λ p. (read_time p, read_count p)) ps)
  read_points [] h = refl
  read_points (p ∷ ps) h = rw (read_value p h.0, read_points ps h.1) refl

  kept_points :
      (ps : List (ℕ × ℕ))
      → All IsSaved ps
      → filter (λ q. not (client.is_nan q.1)) (points ps) ≡ points ps
  kept_points ps h = filter-All (λ q. not (client.is_nan q.1)) (points ps) (all_numbers ps h)
    where
      all_numbers :
          (ps : List (ℕ × ℕ))
          → All IsSaved ps
          → All (λ q. not (client.is_nan q.1) ≡ true) (points ps)
      all_numbers [] h = tt
      all_numbers (p ∷ ps) h = (rw (utc.number_law p.1 h.0.1) refl, all_numbers ps h.1)

  positive_counts :
      (ps : List (ℕ × ℕ))
      → All IsSaved ps
      → All (λ v. f.lt (f.literal 0 0) v ≡ true) (map read_count ps)
  positive_counts [] h = tt
  positive_counts (p ∷ ps) h =
      let (t, c, a) = h.0 in (utc.positive_law p.1 a c, positive_counts ps h.1)

  IsExact-seconds : (ps : List (ℕ × ℕ)) → All IsSaved ps → All IsExact (seconds ps)
  IsExact-seconds [] h = tt
  IsExact-seconds (p ∷ ps) h = (h.0.0, IsExact-seconds ps h.1)

  -- Points whose times rise by seconds, and whose counts are above zero, are read as they were written.
  pub parse_response-written :
      (ps : List (ℕ × ℕ))
      → All IsSaved ps
      → Pairs ◌<◌ (seconds ps)
      → All (λ x. client.utc_error x ≡ none) (map read_time ps)
      → parse_response client (map written ps ∷ [])
        ≡ ok (dated_metrics client (map read_time ps) (map read_count ps))
  unfolding parse_response flat_map empty_metrics build_metrics
  parse_response-written ps h rising dated =
      let n : length (seconds ps) ≡ length ps = length-map (λ p. unix p.0) ps in
      let times : map (λ m. f.of_int (pos m)) (seconds ps) ≡ map read_time ps =
        map-map (λ m. f.of_int (pos m)) (λ p. unix p.0) ps in
      let sorted : client.argsort (map read_time ps) ≡ range 0 (length ps) =
        rw (times, n) at (utc.argsort_law (seconds ps) rising (IsExact-seconds ps h)) in
      let unique : client.unique (map read_time ps) ≡ (map read_time ps, range 0 (length ps)) =
        rw (times, n) at (utc.unique_law (seconds ps) rising (IsExact-seconds ps h)) in
      let firsts : map (λ q. q.0) (points {F = F} ps) ≡ map read_time ps =
        map-map (λ q. q.0) (λ p. (read_time p, read_count p)) ps in
      let counts : map (λ q. q.1) (points {F = F} ps) ≡ map read_count ps =
        map-map (λ q. q.1) (λ p. (read_time p, read_count p)) ps in
      let each_time : select (map read_time ps) (range 0 (length ps)) ≡ ok (map read_time ps) =
        rw (length-map (read_time ⦃f = f⦄) ps) at (select-range (map (read_time ⦃f = f⦄) ps)) in
      let each_count : select (map read_count ps) (range 0 (length ps)) ≡ ok (map read_count ps) =
        rw (length-map (read_count ⦃f = f⦄) ps) at (select-range (map (read_count ⦃f = f⦄) ps)) in
      let all : length ps - 0 ≡ length ps = omega arith in
      let placed : aggregate client (range 0 (length ps)) (map read_count ps)
            (zeros (f.literal 0 0) (length ps))
          ≡ ok (map read_count ps) =
        rw all (
          rw (length-map (read_count ⦃f = f⦄) ps) at
            (aggregate_from [] (map read_count ps) 0 refl (positive_counts ps h))) in
      rw
        (
          append-nil (map written ps),
          read_points ps h,
          kept_points ps h,
          firsts,
          sorted,
          each_time,
          counts,
          each_count,
          unique,
          length-map (read_time ⦃f = f⦄) ps,
          placed,
        )
        (empty_or_built client ps dated)
