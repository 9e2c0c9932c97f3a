-- ===== src/V2/Preprocessor/Buckets.antt =====
-- The buckets by day and hour: each holds the values of its samples, in order.
use mathlib.Core.List.{append-nil, append_assoc}
use smart_hpa.Prelude.{
  ℕ, zero, suc, ◌<◌, ◌≡◌, refl, sym, ap, ◌∙◌, Bool, true, false, ◌&&◌, List, [], ◌∷◌, ◌++◌, length,
  All, All-imp, All-forall, get_or, Result, ok, index, ◌==◌, if◌then◌else◌, arith, Bool-cases, inl,
  inr,
}
use smart_hpa.V2.Preprocessor.{update, append_to, fill_grid}

-- The values of the samples at day `d` and hour `h`; a value with no hour or no day is no sample.
abbrev pub samples_at {ℓ} : {A : Type ℓ} → ℕ → ℕ → List A → List ℕ → List ℕ → List A
samples_at d h (v ∷ vs) (h' ∷ hs) (d' ∷ ds) =
    let rest = samples_at d h vs hs ds in if (d' == d) && (h' == h) then v ∷ rest else rest
samples_at d h _ _ _ = []

suc_eq : (i j : ℕ) → (suc i == suc j) ≡ (i == j)
suc_eq i j = ground arith

-- The list with `g` applied at place `i`.
abbrev pub modify {ℓ} : {A : Type ℓ} → (A → A) → List A → ℕ → List A
modify g [] i = []
modify g (x ∷ xs) zero = g x ∷ xs
modify g (x ∷ xs) (suc i) = x ∷ modify g xs i

module _ {ℓ} {A : Type ℓ} where
  update-modify :
      (change : A → Result A) (g : A → A) (xs : List A) (i : ℕ)
      → All (λ x. change x ≡ ok (g x)) xs
      → i < length xs
      → update change xs i ≡ ok (modify g xs i)
  unfolding update
  update-modify change g [] i a h = absurd (omega arith)
  update-modify change g (x ∷ xs) zero a h = rw (a.0)
  update-modify change g (x ∷ xs) (suc i) a h = rw (update-modify change g xs i a.1 (omega arith))

  pub length-modify : (g : A → A) (xs : List A) (i : ℕ) → length (modify g xs i) ≡ length xs
  length-modify g [] i = refl
  length-modify g (x ∷ xs) zero = refl
  length-modify g (x ∷ xs) (suc i) = ap suc (length-modify g xs i)

  All-modify {κ} :
      (P : A → Type κ) (g : A → A) (xs : List A) (i : ℕ)
      → ((x : A) → P x → P (g x))
      → All P xs
      → All P (modify g xs i)
  All-modify P g [] i f a = tt
  All-modify P g (x ∷ xs) zero f a = (f x a.0, a.1)
  All-modify P g (x ∷ xs) (suc i) f a = (a.0, All-modify P g xs i f a.1)

  get_or-modify :
      (g : A → A) (xs : List A) (i j : ℕ) (z : A)
      → i < length xs
      → get_or (modify g xs i) j z ≡ (if i == j then g (get_or xs j z) else get_or xs j z)
  get_or-modify g [] i j z h = absurd (omega arith)
  get_or-modify g (x ∷ xs) zero zero z h = refl
  get_or-modify g (x ∷ xs) zero (suc j) z h = ground arith
  get_or-modify g (x ∷ xs) (suc i) zero z h = ground arith
  get_or-modify g (x ∷ xs) (suc i) (suc j) z h =
      rw (suc_eq i j) (get_or-modify g xs i j z (omega arith))

  pub index-get_or : (xs : List A) (i : ℕ) (z : A) → i < length xs → index xs i ≡ ok (get_or xs i z)
  index-get_or [] i z h = absurd (omega arith)
  index-get_or (x ∷ xs) zero z h = refl
  index-get_or (x ∷ xs) (suc i) z h = index-get_or xs i z (omega arith)

  pub All-get_or {κ} :
      (P : A → Type κ) (xs : List A) (i : ℕ) (z : A) → i < length xs → All P xs → P (get_or xs i z)
  All-get_or P [] i z h a = absurd (omega arith)
  All-get_or P (x ∷ xs) zero z h a = a.0
  All-get_or P (x ∷ xs) (suc i) z h a = All-get_or P xs i z (omega arith) a.1

module _ {ℓ} {A : Type ℓ} where
  -- Seven days of 24 hours.
  abbrev pub IsGrid : List (List A) → Type 0
  IsGrid grid = (length grid ≡ 7) × All (λ row. length row ≡ 24) grid

module _ {ℓ} {A : Type ℓ} where
  abbrev pub bucket : List (List (List A)) → ℕ → ℕ → List A
  bucket grid d h = get_or (get_or grid d []) h []

  abbrev pub push : A → ℕ → List (List A) → List (List A)
  push v h row = modify (λ b. b ++ (v ∷ [])) row h

  pub append_to-push :
      (v : A) (row : List (List A)) (h : ℕ) → h < length row → append_to v row h ≡ ok (push v h row)
  unfolding append_to
  append_to-push v row h lt =
      update-modify (λ b. ok (b ++ (v ∷ []))) (λ b. b ++ (v ∷ [])) row h
        (All-forall (λ b. refl) row) lt

  pub get_or-push :
      (v : A) (row : List (List A)) (h h' : ℕ)
      → h < length row
      → get_or (push v h row) h' [] ≡ get_or row h' [] ++ (if h == h' then v ∷ [] else [])
  get_or-push v row h h' lt = elim (Bool-cases (h == h')) [
    | inl e ↦ rw (get_or-modify (λ b. b ++ (v ∷ [])) row h h' [] lt, e)
    | inr e ↦
        rw (get_or-modify (λ b. b ++ (v ∷ [])) row h h' [] lt, e)
          (sym (append-nil (get_or row h' [])))
  ]

  pub snoc_if :
      (b : Bool) (v : A) (xs ys : List A)
      → (xs ++ (if b then v ∷ [] else [])) ++ ys ≡ xs ++ (if b then v ∷ ys else ys)
  snoc_if true v xs ys = append_assoc xs (v ∷ []) ys
  snoc_if false v xs ys = append_assoc xs [] ys

  abbrev push_at : A → ℕ → ℕ → List (List (List A)) → List (List (List A))
  push_at v d h grid = modify (push v h) grid d

  push_at-IsGrid :
      (v : A) (d h : ℕ) (grid : List (List (List A))) → IsGrid grid → IsGrid (push_at v d h grid)
  push_at-IsGrid v d h grid g = (
    length-modify (push v h) grid d ∙ g.0,
    All-modify (λ row. length row ≡ 24) (push v h) grid d
        (λ row e. length-modify (λ b. b ++ (v ∷ [])) row h ∙ e) g.1,
  )

  update-push_at :
      (v : A) (d h : ℕ) (grid : List (List (List A)))
      → IsGrid grid
      → d < 7
      → h < 24
      → update (λ row. append_to v row h) grid d ≡ ok (push_at v d h grid)
  update-push_at v d h grid g dl hl =
      update-modify (λ row. append_to v row h) (push v h) grid d
        (All-imp (λ row e. append_to-push v row h (omega arith)) grid g.1) (omega (arith, g.0))

  bucket-push_at :
      (v : A) (d h d' h' : ℕ) (grid : List (List (List A)))
      → IsGrid grid
      → d < 7
      → h < 24
      → bucket (push_at v d h grid) d' h'
        ≡ bucket grid d' h' ++ (if (d == d') && (h == h') then v ∷ [] else [])
  bucket-push_at v d h d' h' grid g dl hl =
      let row = get_or grid d' [] in
      elim (Bool-cases (d == d')) [
        | inl e ↦
            let here : d' < 7 = ground arith in
            let wide : length row ≡ 24 =
              All-get_or (λ r. length r ≡ 24) grid d' [] (omega (arith, g.0)) g.1 in
            rw (get_or-modify (push v h) grid d d' [] (omega (arith, g.0)), e)
              (get_or-push v row h h' (omega arith))
        | inr e ↦
            rw (get_or-modify (push v h) grid d d' [] (omega (arith, g.0)), e) (sym (append-nil _))
      ]

  -- If all days are below 7 and all hours below 24, the loop fills the grid, and each bucket grows by the
  -- values of its samples.
  pub fill_grid_lem :
      (vs : List A) (hs ds : List ℕ) (grid : List (List (List A)))
      → All (λ d. d < 7) ds
      → All (λ h. h < 24) hs
      → IsGrid grid
      → (filled : List (List (List A))) × (fill_grid vs hs ds grid ≡ ok filled)
        × IsGrid filled
        × ((d h : ℕ) → bucket filled d h ≡ bucket grid d h ++ samples_at d h vs hs ds)
  unfolding fill_grid
  fill_grid_lem [] hs ds grid dl hl g = (grid, refl, g, λ d h. sym (append-nil _))
  fill_grid_lem (v ∷ vs) [] ds grid dl hl g = (grid, refl, g, λ d h. sym (append-nil _))
  fill_grid_lem (v ∷ vs) (h ∷ hs) [] grid dl hl g = (grid, refl, g, λ d h. sym (append-nil _))
  fill_grid_lem (v ∷ vs) (h ∷ hs) (d ∷ ds) grid dl hl g =
      let (filled, e, fg, all) =
        fill_grid_lem vs hs ds (push_at v d h grid) dl.1 hl.1 (push_at-IsGrid v d h grid g) in
      (
        filled,
        rw (update-push_at v d h grid g dl.0 hl.0) e,
        fg,
        λ d' h'.
            all d' h'
            ∙ ap (λ b. b ++ samples_at d' h' vs hs ds) (bucket-push_at v d h d' h' grid g dl.0 hl.0)
            ∙ snoc_if ((d == d') && (h == h')) v (bucket grid d' h') (samples_at d' h' vs hs ds),
      )
