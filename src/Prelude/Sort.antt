-- ===== src/Prelude/Sort.antt =====
-- Python's stable `sorted`, with a key and with `reverse=True` too. Any stable sort returns this list
-- where the keys are totally ordered, so it is written as an insertion sort.
use mathlib.Core.Bool.{Bool, true, false}
use mathlib.Core.Logic.{◌⊎◌, inl, inr}
use Prim.Native.Nat.{suc}
use mathlib.Core.Path.{◌≡◌, refl}
use mathlib.Core.List.Perm
use mathlib.Core.List.{List, [], ◌∷◌, Perm}
use smart_hpa.Prelude.Tests.{if◌then◌else◌, Bool-cases}
use smart_hpa.Prelude.Lists.{Any, length, All, All-imp, Pairs}

-- `after x y`: `x` belongs behind `y`. Where neither belongs behind the other they keep their order.
module _ {ℓ} {A : Type ℓ} (after : A → A → Bool) where
  insert : A → List A → List A
  insert x [] = x ∷ []
  insert x (y ∷ ys) = if after x y then y ∷ insert x ys else x ∷ y ∷ ys

  unfoldable pub sorted : List A → List A
  unfolding insert
  sorted [] = []
  sorted (x ∷ xs) = insert x (sorted xs)

  insert-perm : (x : A) (ys : List A) → Perm (insert x ys) (x ∷ ys)
  unfolding insert
  insert-perm x [] = Perm.refl (x ∷ [])
  insert-perm x (y ∷ ys) =
      elim (after x y) as (λ b. Perm (if b then y ∷ insert x ys else x ∷ y ∷ ys) (x ∷ y ∷ ys)) [
        | true ↦ Perm.trans (Perm.cons y (insert-perm x ys)) (Perm.swap x y ys)
        | false ↦ Perm.refl (x ∷ y ∷ ys)
      ]

  -- The sorted list has the same elements, each as often.
  pub sorted-perm : (xs : List A) → Perm (sorted xs) xs
  unfolding sorted
  sorted-perm [] = Perm.refl []
  sorted-perm (x ∷ xs) = Perm.trans (insert-perm x (sorted xs)) (Perm.cons x (sorted-perm xs))

  length-insert : (x : A) (ys : List A) → length (insert x ys) ≡ suc (length ys)
  unfolding insert
  length-insert x [] = refl
  length-insert x (y ∷ ys) = elim (Bool-cases (after x y)) [
    | inl e ↦ rw (e, length-insert x ys) refl
    | inr e ↦ rw e refl
  ]

  pub length-sorted : (xs : List A) → length (sorted xs) ≡ length xs
  unfolding sorted
  length-sorted [] = refl
  length-sorted (x ∷ xs) = rw (length-insert x (sorted xs), length-sorted xs) refl

  All-insert {κ} : (P : A → Type κ) (x : A) (ys : List A) → P x → All P ys → All P (insert x ys)
  unfolding insert
  All-insert P x [] p q = (p, tt)
  All-insert P x (y ∷ ys) p q =
      elim (after x y) as (λ b. All P (if b then y ∷ insert x ys else x ∷ y ∷ ys)) [
        | true ↦ (q.0, All-insert P x ys p q.1)
        | false ↦ (p, q)
      ]

  pub All-sorted {κ} : (P : A → Type κ) (xs : List A) → All P xs → All P (sorted xs)
  unfolding sorted
  All-sorted P [] p = tt
  All-sorted P (x ∷ xs) p = All-insert P x (sorted xs) p.0 (All-sorted P xs p.1)

  Any-insert : (P : A → Type 0) (x : A) (ys : List A) → P x ⊎ Any P ys → Any P (insert x ys)
  unfolding insert
  Any-insert P x [] m = m
  Any-insert P x (y ∷ ys) m = elim (Bool-cases (after x y)) [
    | inl e ↦ rw e (elim m [
      | inl p ↦ inr (Any-insert P x ys (inl p))
      | inr n ↦ elim n [ inl q ↦ inl q | inr r ↦ inr (Any-insert P x ys (inr r)) ]
    ])
    | inr e ↦ rw e m
  ]

  pub Any-sorted : (P : A → Type 0) (xs : List A) → Any P xs → Any P (sorted xs)
  unfolding sorted
  Any-sorted P [] m = m
  Any-sorted P (x ∷ xs) m =
      Any-insert P x (sorted xs) (elim m [ inl p ↦ inl p | inr n ↦ inr (Any-sorted P xs n) ])

  All-of_insert {κ} : (P : A → Type κ) (x : A) (ys : List A) → All P (insert x ys) → P x × All P ys
  unfolding insert
  All-of_insert P x [] h = h
  All-of_insert P x (y ∷ ys) h = elim (Bool-cases (after x y)) [
    | inl e ↦
        let g : All P (y ∷ insert x ys) = rw e at h in
        let (p, q) = All-of_insert P x ys g.1 in (p, (g.0, q))
    | inr e ↦ rw e at h
  ]

  pub All-of_sorted {κ} : (P : A → Type κ) (xs : List A) → All P (sorted xs) → All P xs
  unfolding sorted
  All-of_sorted P [] h = tt
  All-of_sorted P (x ∷ xs) h =
      let (p, q) = All-of_insert P x (sorted xs) h in (p, All-of_sorted P xs q)

  Any-of_insert : (P : A → Type 0) (x : A) (ys : List A) → Any P (insert x ys) → P x ⊎ Any P ys
  unfolding insert
  Any-of_insert P x [] m = m
  Any-of_insert P x (y ∷ ys) m = elim (Bool-cases (after x y)) [
    | inl e ↦
        let n : P y ⊎ Any P (insert x ys) = rw e at m in
        elim n [
          | inl q ↦ inr (inl q)
          | inr later ↦ elim (Any-of_insert P x ys later) [ inl p ↦ inl p | inr r ↦ inr (inr r) ]
        ]
    | inr e ↦ rw e at m
  ]

  pub Any-of_sorted : (P : A → Type 0) (xs : List A) → Any P (sorted xs) → Any P xs
  unfolding sorted
  Any-of_sorted P [] m = m
  Any-of_sorted P (x ∷ xs) m = elim (Any-of_insert P x (sorted xs) m) [
    | inl p ↦ inl p
    | inr later ↦ inr (Any-of_sorted P xs later)
  ]

  -- Sorting keeps what holds of any two elements, in either order.
  module _ {κ} (R : A → A → Type κ) (R-sym : (x y : A) → R x y → R y x) where
    Pairs-insert_sym : (x : A) (ys : List A) → All (R x) ys → Pairs R ys → Pairs R (insert x ys)
    unfolding insert
    Pairs-insert_sym x [] h p = (tt, tt)
    Pairs-insert_sym x (y ∷ ys) h p = elim (Bool-cases (after x y)) [
      | inl e ↦ rw e (All-insert (R y) x ys (R-sym x y h.0) p.0, Pairs-insert_sym x ys h.1 p.1)
      | inr e ↦ rw e (h, p)
    ]

    pub sorted-Pairs_sym : (xs : List A) → Pairs R xs → Pairs R (sorted xs)
    unfolding sorted
    sorted-Pairs_sym [] p = tt
    sorted-Pairs_sym (x ∷ xs) p =
        Pairs-insert_sym x (sorted xs) (All-sorted (R x) xs p.0) (sorted-Pairs_sym xs p.1)

  -- An order that the test decides: `R y x` for each `y` in front of `x`.
  module _ {κ} (R : A → A → Type κ) (R-trans : (x y z : A) → R x y → R y z → R x z)
      (behind : (x y : A) → after x y ≡ true → R y x)
      (ahead : (x y : A) → after x y ≡ false → R x y) where
    Pairs-insert : (x : A) (ys : List A) → Pairs R ys → Pairs R (insert x ys)
    unfolding insert
    Pairs-insert x [] p = (tt, tt)
    Pairs-insert x (y ∷ ys) p = elim (Bool-cases (after x y)) [
      | inl e ↦ rw e (All-insert (R y) x ys (behind x y e) p.0, Pairs-insert x ys p.1)
      | inr e ↦ rw e ((ahead x y e, All-imp (λ z r. R-trans x y z (ahead x y e) r) ys p.0), p)
    ]

    -- The sorted list is in order.
    pub sorted-Pairs : (xs : List A) → Pairs R (sorted xs)
    unfolding sorted
    sorted-Pairs [] = tt
    sorted-Pairs (x ∷ xs) = Pairs-insert x (sorted xs) (sorted-Pairs xs)
