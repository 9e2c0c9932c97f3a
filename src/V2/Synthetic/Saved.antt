-- ===== src/V2/Synthetic/Saved.antt =====
-- The file of `save_to_json` holds what `_parse_response` of ml/v2/data_fetcher.py reads: the round trip
-- of the times and the counts.
use mathlib.Core.List.{append_assoc}
use smart_hpa.Prelude.{
  ℕ, ◌+◌, ◌-◌, ◌/◌, ◌<◌, ◌≤◌, ◌≡◌, refl, true, false, String, List, [], ◌∷◌, ◌++◌, map, length,
  length-append, Option, none, some, ok, index, range, range_from, All, Pairs, arith,
}
use smart_hpa.Prelude.Int.{pos}
use smart_hpa.Prelude.Text.{int_text}
use smart_hpa.Float.{Float}
use smart_hpa.Host.{Host}
use smart_hpa.Json.{Json, Items, num, str, arr, nil, cons, array, items, get}
use smart_hpa.V2.Fetcher.{Client, Response, select}

abbrev both {ℓ} : {A : Type ℓ} → Option A → Option (List A) → Option (List A)
both (some x) (some xs) = some (x ∷ xs)
both _ _ = none

abbrev within : String → Option Json → Option Json
within key (some answer) = get key answer
within key none = none

-- The series of an answer, as `_query_range` and `_parse_response` take it apart.
module _ {F : Type 0} ⦃f : Float F⦄ where
  abbrev response : Option Json → Option (List (List (F × String))) → Option (Response F)
  response (some (str status)) (some result) = some (record { status = status; result = result })
  response _ _ = none

  abbrev pub points_of : Items → Option (List (F × String))
  points_of nil = some []
  points_of (cons (arr (cons (num n) (cons (str v) nil))) rest) = elim (points_of rest) [
    | none ↦ none
    | some points ↦ some ((f.of_int n, v) ∷ points)
  ]
  points_of _ = none

  abbrev pub values_of : Option Json → Option (List (F × String))
  values_of (some (arr values)) = points_of values
  values_of _ = none

  -- `series.get("values")` of each series.
  abbrev pub all_values : Items → Option (List (List (F × String)))
  all_values nil = some []
  all_values (cons series rest) = both (values_of (get "values" series)) (all_values rest)

  abbrev pub result_of : Option Json → Option (List (List (F × String)))
  result_of (some (arr result)) = all_values result
  result_of _ = none

  -- `data["status"]` and `data["data"]["result"]`
  abbrev pub response_of : Json → Option (Response F)
  response_of answer =
      response (get "status" answer) (result_of (within "result" (get "data" answer)))

-- The time in seconds since 1970.
abbrev pub unix : ℕ → ℕ
unix t = t / 1_000_000 - 62_135_596_800

-- The numbers that floats hold exactly, with all smaller ones.
abbrev pub IsExact : ℕ → Type 0
IsExact n = n < 9_007_199_254_740_992

-- What is documented of floats, of `float` and of numpy, on numbers below 2^53, and of a host whose
-- zone is UTC.
pub record IsUtc {F : Type 0} {S : Type 0} ⦃f : Float F⦄ (client : Client F) (host : Host F S)
    : Type 0 where
  pub int_law : (n : ℕ) → IsExact n → f.int (f.of_int (pos n)) ≡ ok (pos n)
  pub parse_law : (n : ℕ) → IsExact n → client.parse (int_text (pos n)) ≡ ok (f.of_int (pos n))
  pub number_law : (n : ℕ) → IsExact n → client.is_nan (f.of_int (pos n)) ≡ false
  pub positive_law : (n : ℕ) → 0 < n → IsExact n → f.lt (f.literal 0 0) (f.of_int (pos n)) ≡ true
  pub timestamp_law :
      (t : ℕ)
      → 62_135_596_800_000_000 ≤ t
      → t < 315_537_897_600_000_000
      → f.int (host.timestamp t) ≡ ok (pos (unix t))
  -- The times have timestamps, and these are times again.
  pub stamped_law :
      (t : ℕ)
      → 62_135_596_800_000_000 ≤ t
      → t < 315_537_897_600_000_000
      → host.timestamp_error t ≡ none
  pub dated_law :
      (t : ℕ)
      → 62_135_596_800_000_000 ≤ t
      → t < 315_537_897_600_000_000
      → client.utc_error (f.of_int (pos (unix t))) ≡ none
  pub argsort_law :
      (ns : List ℕ)
      → Pairs ◌<◌ ns
      → All (λ n. IsExact n) ns
      → client.argsort (map (λ n. f.of_int (pos n)) ns) ≡ range 0 (length ns)
  pub unique_law :
      (ns : List ℕ)
      → Pairs ◌<◌ ns
      → All (λ n. IsExact n) ns
      → client.unique (map (λ n. f.of_int (pos n)) ns)
        ≡ (map (λ n. f.of_int (pos n)) ns, range 0 (length ns))

-- `select` of all places, in their order.
module _ {A : Type 0} where
  index_last :
      (front : List A) (x : A) (rest : List A) → index (front ++ x ∷ rest) (length front) ≡ ok x
  index_last [] x rest = refl
  index_last (y ∷ front) x rest = index_last front x rest

  select_from :
      (front rest : List A) (k : ℕ)
      → k ≡ length front
      → select (front ++ rest) (range_from k (length rest)) ≡ ok rest
  select_from front [] k e = refl
  select_from front (x ∷ rest) k e =
      let here : index (front ++ x ∷ rest) k ≡ ok x = rw e (index_last front x rest) in
      let next : k + 1 ≡ length (front ++ x ∷ []) = omega (arith, length-append front (x ∷ [])) in
      let later : select (front ++ x ∷ rest) (range_from (k + 1) (length rest)) ≡ ok rest =
        rw (append_assoc front (x ∷ []) rest) at
          (select_from (front ++ x ∷ []) rest (k + 1) next) in
      rw (here, later) refl

  pub select-range : (xs : List A) → select xs (range 0 (length xs)) ≡ ok xs
  select-range xs =
      let n : length xs - 0 ≡ length xs = omega arith in rw n (select_from [] xs 0 refl)

abbrev pub json_point : ℕ × ℕ → Json
json_point p = array (num (pos (unix p.0)) ∷ str (int_text (pos p.1)) ∷ [])

-- A time with its count, as it is written and as it is read.
module _ {F : Type 0} ⦃f : Float F⦄ where
  abbrev pub read_time : ℕ × ℕ → F
  read_time p = f.of_int (pos (unix p.0))

  abbrev pub read_count : ℕ × ℕ → F
  read_count p = f.of_int (pos p.1)

  abbrev pub written : ℕ × ℕ → F × String
  written p = (read_time p, int_text (pos p.1))

  pub points_of-json_point :
      (ps : List (ℕ × ℕ)) → points_of (items (map json_point ps)) ≡ some (map written ps)
  points_of-json_point [] = refl
  points_of-json_point (p ∷ ps) = rw (points_of-json_point ps) refl
