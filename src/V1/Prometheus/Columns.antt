-- ===== src/V1/Prometheus/Columns.antt =====
-- Rows of data frames, and what the parser of ml/prometheus_client.py puts into them.
use mathlib.Core.Path.{subst}
use mathlib.Core.List.{flat_map, zip_with}
use smart_hpa.Prelude.{
  ℕ, ◌≡◌, refl, ap, sym, ◌∙◌, true, false, not, String, List, [], ◌∷◌, ◌++◌, map, length, filter,
  some, ok, traverse, >>=-eq-ok, ok-injective, traverse-Each, All, All-filter, Each, Bool-cases,
  inl, inr, ◌==◌, arith,
}
use smart_hpa.Prelude.Text.{str_eq}
use text.Mathlib.TextPositions.{eq_refl}
use text.Mathlib.TextEquality.{eq_iff}
use smart_hpa.V1.Prometheus.{
  Cell, time, number, string, Columns, Frame, Series, Api, set_cell, get_cell, put_labels,
  series_id, data_value, series_frame, parse_range_result,
}

-- No label has that name.
abbrev pub IsFree : String → List (String × String) → Type 0
IsFree key labels = All (λ e. str_eq e.0 key ≡ false) labels

module _ {F : Type 0} where
  pub get-set :
      (key : String) (cell : Cell F) (row : Columns F)
      → get_cell key (set_cell key cell row) ≡ some cell
  unfolding get_cell set_cell
  get-set key cell [] = rw (eq_refl key) refl
  get-set key cell ((k, old) ∷ row) = elim (Bool-cases (str_eq k key)) [
    | inl same ↦ rw same (rw same refl)
    | inr apart ↦ rw apart (rw apart (get-set key cell row))
  ]

  pub get-set_other :
      (key other : String) (cell : Cell F) (row : Columns F)
      → str_eq other key ≡ false
      → get_cell key (set_cell other cell row) ≡ get_cell key row
  unfolding get_cell set_cell
  get-set_other key other cell [] h = rw h refl
  get-set_other key other cell ((k, old) ∷ row) h = elim (Bool-cases (str_eq k other)) [
    | inl same ↦
        let here : k ≡ other = (eq_iff k other).0 same in
        let apart : str_eq k key ≡ false = ap (λ s. str_eq s key) here ∙ h in
        rw same (rw apart refl)
    | inr away ↦ rw away (rw (get-set_other key other cell row h) refl)
  ]

  get-put_labels :
      (key : String) (labels : List (String × String)) (row : Columns F)
      → IsFree key labels
      → get_cell key (put_labels labels row) ≡ get_cell key row
  unfolding put_labels
  get-put_labels key [] row h = refl
  get-put_labels key ((k, v) ∷ labels) row h =
      get-put_labels key labels (set_cell k (string v) row) h.1
      ∙ get-set_other key k (string v) row h.0

no_values {ℓ κ} :
    {A : Type ℓ} {B : Type κ} (g : A → B) (xs : List A) (ys : List B)
    → (length xs == 0) ≡ true
    → map g xs ++ ys ≡ ys
no_values g [] ys h = refl
no_values g (x ∷ xs) ys h = absurd (ground (arith, h))

-- A series none of whose labels overwrites a column of the parser.
abbrev pub IsPlain : {F : Type 0} → Series F → Type 0
IsPlain series =
    IsFree "timestamp" series.metric
    × IsFree "value" series.metric
    × IsFree "series_id" series.metric

module _ {F : Type 0} (api : Api F) where
  -- The row of a point of a series: its time, its value and the name of the series.
  abbrev pub IsRowOf : Series F × F × String → Columns F → Type 0
  IsRowOf point row =
      ((t : ℕ) × (api.from_timestamp point.1 ≡ ok t) × (get_cell "timestamp" row ≡ some (time t)))
      × ((v : F) × (data_value api point.2 ≡ ok v) × (get_cell "value" row ≡ some (number v)))
      × (get_cell "series_id" row ≡ some (string (series_id point.0.metric)))

  abbrev pub points_of : Series F → List (Series F × F × String)
  points_of series = map (λ p. (series, p.0, p.1)) series.values

  abbrev row_of : Series F → ℕ → F → Columns F
  row_of series t v = put_labels series.metric (
      ("timestamp", time t)
      ∷ ("value", number v)
      ∷ ("series_id", string (series_id series.metric))
      ∷ [])

  row_of-IsRowOf :
      (series : Series F) (p : F × String) (t : ℕ) (v : F)
      → IsPlain series
      → api.from_timestamp p.0 ≡ ok t
      → data_value api p.1 ≡ ok v
      → IsRowOf (series, p.0, p.1) (row_of series t v)
  unfolding get_cell
  row_of-IsRowOf series p t v plain e d =
      let (free_time, free_value, free_id) = plain in
      (
        (t, e, get-put_labels "timestamp" series.metric _ free_time),
        (v, d, get-put_labels "value" series.metric _ free_value),
        get-put_labels "series_id" series.metric _ free_id,
      )

  zipped_rows :
      (series : Series F) (ps : List (F × String)) (ts : List ℕ) (vs : List F)
      → IsPlain series
      → Each (λ p t. api.from_timestamp p.0 ≡ ok t) ps ts
      → Each (λ p v. data_value api p.1 ≡ ok v) ps vs
      → Each IsRowOf (map (λ p. (series, p.0, p.1)) ps) (zip_with (row_of series) ts vs)
  unfolding zip_with
  zipped_rows series [] [] [] plain e d = tt
  zipped_rows series (p ∷ ps) (t ∷ ts) (v ∷ vs) plain e d =
      (row_of-IsRowOf series p t v plain e.0 d.0, zipped_rows series ps ts vs plain e.1 d.1)
  zipped_rows series [] (t ∷ ts) vs plain e d = elim e [ ]
  zipped_rows series [] [] (v ∷ vs) plain e d = elim d [ ]
  zipped_rows series (p ∷ ps) [] vs plain e d = elim e [ ]
  zipped_rows series (p ∷ ps) (t ∷ ts) [] plain e d = elim d [ ]

  series_frame-IsRowOf :
      (series : Series F) (frame : Frame F)
      → IsPlain series
      → series_frame api series ≡ ok frame
      → Each IsRowOf (points_of series) frame
  unfolding series_frame
  series_frame-IsRowOf series frame plain e =
      let (ts, times, rest) =
        >>=-eq-ok (traverse (λ point. api.from_timestamp point.0) series.values) _ e in
      let (vs, values, last) =
        >>=-eq-ok (traverse (λ point. data_value api point.1) series.values) _ rest in
      let whole : zip_with (row_of series) ts vs ≡ frame = ok-injective _ frame last in
      subst (Each IsRowOf (points_of series)) whole (
        zipped_rows series series.values ts vs plain
          (traverse-Each (λ point. api.from_timestamp point.0) series.values ts times)
          (traverse-Each (λ point. data_value api point.1) series.values vs values))

  Each-append :
      (ps qs : List (Series F × F × String)) (xs ys : Frame F)
      → Each IsRowOf ps xs
      → Each IsRowOf qs ys
      → Each IsRowOf (ps ++ qs) (xs ++ ys)
  Each-append [] qs [] ys e d = d
  Each-append [] qs (x ∷ xs) ys e d = elim e [ ]
  Each-append (p ∷ ps) qs [] ys e d = elim e [ ]
  Each-append (p ∷ ps) qs (x ∷ xs) ys e d = (e.0, Each-append ps qs xs ys e.1 d)

  frames-IsRowOf :
      (result : List (Series F)) (frames : List (Frame F))
      → All IsPlain result
      → Each (λ series frame. series_frame api series ≡ ok frame) result frames
      → Each IsRowOf (flat_map points_of result) (flat_map (λ frame. frame) frames)
  unfolding flat_map
  frames-IsRowOf [] [] plain e = tt
  frames-IsRowOf [] (x ∷ xs) plain e = elim e [ ]
  frames-IsRowOf (s ∷ ss) [] plain e = elim e [ ]
  frames-IsRowOf (s ∷ ss) (x ∷ xs) plain e =
      Each-append (points_of s) (flat_map points_of ss) x (flat_map (λ frame. frame) xs)
        (series_frame-IsRowOf s x plain.0 e.0) (frames-IsRowOf ss xs plain.1 e.1)

  -- The series that are passed over have no points.
  kept_points :
      (result : List (Series F))
      → flat_map points_of (filter (λ series. not (length series.values == 0)) result)
        ≡ flat_map points_of result
  unfolding flat_map
  kept_points [] = refl
  kept_points (s ∷ ss) = elim (Bool-cases (length s.values == 0)) [
    | inl empty ↦ rw empty (
        kept_points ss
        ∙ sym (no_values (λ p. (s, p.0, p.1)) s.values (flat_map points_of ss) empty))
    | inr full ↦ rw full (ap (λ ps. points_of s ++ ps) (kept_points ss))
  ]

  -- If the parser returns, and no label has the name of one of its columns, the rows are those of all
  -- points of all series, in their order, each with its time, its value and the name of its series.
  pub parse_range_result-IsRowOf :
      (result : List (Series F)) (frame : Frame F)
      → All IsPlain result
      → parse_range_result api result ≡ ok frame
      → Each IsRowOf (flat_map points_of result) frame
  unfolding parse_range_result
  parse_range_result-IsRowOf result frame plain e =
      let kept = filter (λ series. not (length series.values == 0)) result in
      let (frames, made, last) = >>=-eq-ok (traverse (series_frame api) kept) _ e in
      let whole : flat_map (λ x. x) frames ≡ frame = ok-injective _ frame last in
      subst (λ ps. Each IsRowOf ps frame) (kept_points result)
        (subst (Each IsRowOf (flat_map points_of kept)) whole (
          frames-IsRowOf kept frames (All-filter IsPlain _ result plain)
            (traverse-Each (series_frame api) kept frames made)))
