-- ===== src/V2/Model/Collect.antt =====
-- The loops that collect the readings of the cells with samples.
use mathlib.Core.Path.{subst}
use smart_hpa.Prelude.{
  ℕ, zero, suc, ◌+◌, ◌-◌, ◌*◌, ◌≤◌, ◌<◌, ◌≡◌, refl, sym, List, [], ◌∷◌, ◌++◌, length, length-append,
  All, range_from, range, Result, ok, Returns, Returns-map, ◌>>=◌, ltb, if◌then◌else◌, arith,
  Bool-cases, inl, inr, Ensures, Ensures-bind, Ensures-then,
}
use smart_hpa.V2.Data.{Matrix, cell}
use smart_hpa.V2.Model.{collect_hours, collect}

All-range_from : (a n k : ℕ) → a + n ≤ k → All (λ h. h < k) (range_from a n)
All-range_from a zero k h = tt
All-range_from a (suc n) k h = (omega arith, All-range_from (a + 1) n k (omega arith))

pub All-range : (a b k : ℕ) → b ≤ k → All (λ h. h < k) (range a b)
All-range a b k h = elim (Bool-cases (ltb a b)) [
  | inl e ↦ All-range_from a (b - a) k (ground arith)
  | inr e ↦
      let none_left : b - a ≡ 0 = ground arith in
      subst (λ n. All (λ h. h < k) (range_from a n)) (sym none_left) tt
]

module _ {ℓ} {A : Type ℓ} (counts : Matrix ℕ) (read : ℕ → ℕ → Result A) where
  -- One reading, if the cell has samples.
  abbrev reading : ℕ → ℕ → ℕ → Result (List A)
  reading n d h = if ltb 0 n then (do v ← read d h; ok (v ∷ [])) else ok []

  length-reading : (n d h : ℕ) → Ensures (λ xs. length xs ≤ 1) (reading n d h)
  length-reading n d h = elim (Bool-cases (ltb 0 n)) [
    | inl e ↦
        rw e (Ensures-then (λ xs. length xs ≤ 1) (read d h) (λ v. ok (v ∷ [])) (λ v. omega arith))
    | inr e ↦ rw e (omega arith)
  ]

  length-collect_hours :
      (d : ℕ) (hs : List ℕ) → Ensures (λ xs. length xs ≤ length hs) (collect_hours counts read d hs)
  unfolding collect_hours
  length-collect_hours d [] = omega arith
  length-collect_hours d (h ∷ hs) =
      Ensures-then (λ xs. length xs ≤ suc (length hs)) (cell counts d h) _
        λ n.
          Ensures-bind (λ xs. length xs ≤ 1) (λ xs. length xs ≤ suc (length hs)) (reading n d h) _
            (length-reading n d h)
            λ here le.
              Ensures-bind (λ xs. length xs ≤ length hs) (λ xs. length xs ≤ suc (length hs))
                (collect_hours counts read d hs) _ (length-collect_hours d hs)
                λ rest lr. omega (arith, length-append here rest)

  -- No more readings than cells.
  pub length-collect :
      (hs ds : List ℕ)
      → Ensures (λ xs. length xs ≤ length ds * length hs) (collect counts read hs ds)
  unfolding collect
  length-collect hs [] = omega arith
  length-collect hs (d ∷ ds) =
      Ensures-bind (λ xs. length xs ≤ length hs) (λ xs. length xs ≤ suc (length ds) * length hs)
        (collect_hours counts read d hs) _ (length-collect_hours d hs)
        λ here le.
          Ensures-bind (λ xs. length xs ≤ length ds * length hs)
            (λ xs. length xs ≤ suc (length ds) * length hs) (collect counts read hs ds) _
            (length-collect hs ds) λ rest lr. omega (arith, length-append here rest)

  reading-Returns : (n d h : ℕ) → Returns (read d h) → Returns (reading n d h)
  reading-Returns n d h r = elim (Bool-cases (ltb 0 n)) [
    | inl e ↦ rw e (Returns-map (read d h) (λ v. v ∷ []) r)
    | inr e ↦ rw e ([], refl)
  ]

  -- Every day's and hour's cell is readable.
  abbrev pub IsReadable : Type ℓ
  IsReadable = (d h : ℕ) → d < 7 → h < 24 → Returns (cell counts d h) × Returns (read d h)

  collect_hours-Returns :
      IsReadable
      → (d : ℕ) (hs : List ℕ) → d < 7
      → All (λ h. h < 24) hs
      → Returns (collect_hours counts read d hs)
  unfolding collect_hours
  collect_hours-Returns table d [] dl hl = ([], refl)
  collect_hours-Returns table d (h ∷ hs) dl hl =
      let (cells, reads) = table d h dl hl.0 in
      let (n, ne) = cells in
      let (here, he) = reading-Returns n d h reads in
      let (rest, re) = collect_hours-Returns table d hs dl hl.1 in (here ++ rest, rw (ne, he, re))

  pub collect-Returns :
      IsReadable
      → (hs ds : List ℕ) → All (λ h. h < 24) hs
      → All (λ d. d < 7) ds
      → Returns (collect counts read hs ds)
  unfolding collect
  collect-Returns table hs [] hl dl = ([], refl)
  collect-Returns table hs (d ∷ ds) hl dl =
      let (here, he) = collect_hours-Returns table d hs dl.0 hl in
      let (rest, re) = collect-Returns table hs ds hl dl.1 in (here ++ rest, rw (he, re))
