-- ===== src/Prelude/Lists.antt =====
-- Lists measured by native numbers, and predicates over lists by recursion.
use Prim.Native.Nat.{ℕ, zero, suc, ◌+◌, ◌-◌, ◌≤◌}
use mathlib.Core.Path.{◌≡◌, ap, refl}
use mathlib.Core.Logic.{◌⊎◌, inl, inr}
use mathlib.Core.Bool.{Bool, true, false}
use smart_hpa.Prelude.Tests.{if◌then◌else◌, Bool-cases}
use mathlib.Core.List.{List, [], ◌∷◌, map, ◌++◌}
use mathlib.Core.Option.{Option, none, some}
use native.Mathlib.Omega.{arith}

module _ {ℓ} {A : Type ℓ} where
  abbrev pub length : List A → ℕ
  length [] = 0
  length (x ∷ xs) = suc (length xs)

  abbrev pub get_elem? : List A → ℕ → Option A
  get_elem? [] i = none
  get_elem? (x ∷ xs) zero = some x
  get_elem? (x ∷ xs) (suc i) = get_elem? xs i

  abbrev pub take : ℕ → List A → List A
  take zero xs = []
  take (suc n) [] = []
  take (suc n) (x ∷ xs) = x ∷ take n xs

  pub length-append : (xs ys : List A) → length (xs ++ ys) ≡ length xs + length ys
  length-append [] ys = omega arith
  length-append (x ∷ xs) ys = omega (arith, length-append xs ys)

  abbrev pub All {κ} : (A → Type κ) → List A → Type κ
  All P [] = Unit
  All P (x ∷ xs) = P x × All P xs

  abbrev pub Any : (A → Type 0) → List A → Type 0
  Any P [] = ⊥
  Any P (x ∷ xs) = P x ⊎ Any P xs

  pub All-take {κ} : (P : A → Type κ) (n : ℕ) (xs : List A) → All P xs → All P (take n xs)
  All-take P zero xs h = tt
  All-take P (suc n) [] h = tt
  All-take P (suc n) (x ∷ xs) h = (h.0, All-take P n xs h.1)

  pub length-take : (n : ℕ) (xs : List A) → n ≤ length xs → length (take n xs) ≡ n
  length-take zero xs h = refl
  length-take (suc n) [] h = absurd (omega arith)
  length-take (suc n) (x ∷ xs) h = ap suc (length-take n xs (omega arith))

  -- `R` holds of each element and every later one.
  abbrev pub Pairs {κ} : (A → A → Type κ) → List A → Type κ
  Pairs R [] = Unit
  Pairs R (x ∷ xs) = All (R x) xs × Pairs R xs

  pub All-append {κ} : (P : A → Type κ) (xs ys : List A) → All P xs → All P ys → All P (xs ++ ys)
  All-append P [] ys p q = q
  All-append P (x ∷ xs) ys p q = (p.0, All-append P xs ys p.1 q)

  pub All-imp {κ μ} :
      {P : A → Type κ} {Q : A → Type μ}
      → ((a : A) → P a → Q a)
      → (xs : List A) → All P xs
      → All Q xs
  All-imp f [] p = tt
  All-imp f (x ∷ xs) p = (f x p.0, All-imp f xs p.1)

  pub Any-imp : {P Q : A → Type 0} → ((a : A) → P a → Q a) → (xs : List A) → Any P xs → Any Q xs
  Any-imp f [] p = p
  Any-imp f (x ∷ xs) (inl p) = inl (f x p)
  Any-imp f (x ∷ xs) (inr p) = inr (Any-imp f xs p)

  pub All-Any {κ ν} :
      {P : A → Type κ} {Q : A → Type 0} {R : Type ν}
      → ((a : A) → P a → Q a → R)
      → (xs : List A) → All P xs
      → Any Q xs
      → R
  All-Any f (x ∷ xs) p (inl q) = f x p.0 q
  All-Any f (x ∷ xs) p (inr q) = All-Any f xs p.1 q
  All-Any f [] p q = elim q [ ]

-- `range(n)` and `range(a, b)`.
abbrev pub range_from : ℕ → ℕ → List ℕ
range_from a zero = []
range_from a (suc n) = a ∷ range_from (a + 1) n

-- `range(a, b)`
abbrev pub range : ℕ → ℕ → List ℕ
range a b = range_from a (b - a)

module _ {ℓ} {A : Type ℓ} where
  -- `[x for x in xs if p(x)]`
  abbrev pub filter : (A → Bool) → List A → List A
  filter p [] = []
  filter p (x ∷ xs) = let rest = filter p xs in if p x then x ∷ rest else rest

  pub All-filter {κ} :
      (P : A → Type κ) (p : A → Bool) (xs : List A) → All P xs → All P (filter p xs)
  All-filter P p [] h = tt
  All-filter P p (x ∷ xs) h =
      elim (p x) as (λ b. All P (if b then x ∷ filter p xs else filter p xs)) [
        | true ↦ (h.0, All-filter P p xs h.1)
        | false ↦ All-filter P p xs h.1
      ]

  -- Each element is one of the list.
  pub All-self :
      (R : A → A → Type 0) → ((a : A) → R a a) → (xs : List A) → All (λ a. Any (λ b. R b a) xs) xs
  All-self R r [] = tt
  All-self R r (x ∷ xs) = (inl (r x), All-imp (λ a m. inr m) xs (All-self R r xs))

  pub Any-append : (P : A → Type 0) (xs ys : List A) → Any P xs ⊎ Any P ys → Any P (xs ++ ys)
  Any-append P [] ys (inl m) = elim m [ ]
  Any-append P [] ys (inr m) = m
  Any-append P (x ∷ xs) ys (inl m) = elim m [
    | inl p ↦ inl p
    | inr n ↦ inr (Any-append P xs ys (inl n))
  ]
  Any-append P (x ∷ xs) ys (inr m) = inr (Any-append P xs ys (inr m))

  pub Any-of_append : (P : A → Type 0) (xs ys : List A) → Any P (xs ++ ys) → Any P xs ⊎ Any P ys
  Any-of_append P [] ys m = inr m
  Any-of_append P (x ∷ xs) ys (inl p) = inl (inl p)
  Any-of_append P (x ∷ xs) ys (inr m) = elim (Any-of_append P xs ys m) [
    | inl n ↦ inl (inr n)
    | inr n ↦ inr n
  ]

  pub Any-and {κ} :
      {P : A → Type κ} {Q R : A → Type 0}
      → ((a : A) → P a → Q a → R a)
      → (xs : List A) → All P xs
      → Any Q xs
      → Any R xs
  Any-and f [] p q = q
  Any-and f (x ∷ xs) p (inl q) = inl (f x p.0 q)
  Any-and f (x ∷ xs) p (inr q) = inr (Any-and f xs p.1 q)

  pub All-and {κ μ ν} :
      {P : A → Type κ} {Q : A → Type μ} {R : A → Type ν}
      → ((a : A) → P a → Q a → R a)
      → (xs : List A) → All P xs
      → All Q xs
      → All R xs
  All-and f [] p q = tt
  All-and f (x ∷ xs) p q = (f x p.0 q.0, All-and f xs p.1 q.1)

module _ {ℓ} {A : Type ℓ} where
  abbrev pub get_or : List A → ℕ → A → A
  get_or [] i d = d
  get_or (x ∷ xs) zero d = x
  get_or (x ∷ xs) (suc i) d = get_or xs i d

  pub All-forall {κ} : {P : A → Type κ} → ((a : A) → P a) → (xs : List A) → All P xs
  All-forall f [] = tt
  All-forall f (x ∷ xs) = (f x, All-forall f xs)

module _ {ℓ} {A : Type ℓ} (p : A → Bool) where
  -- What a filter lets through passes its test.
  pub filter_passes : (xs : List A) → All (λ x. p x ≡ true) (filter p xs)
  filter_passes [] = tt
  filter_passes (x ∷ xs) = elim (Bool-cases (p x)) [
    | inl e ↦ rw e ((e, filter_passes xs))
    | inr e ↦ rw e (filter_passes xs)
  ]

  pub Pairs-filter {κ} : (R : A → A → Type κ) (xs : List A) → Pairs R xs → Pairs R (filter p xs)
  Pairs-filter R [] h = tt
  Pairs-filter R (x ∷ xs) h = elim (Bool-cases (p x)) [
    | inl e ↦ rw e (All-filter (R x) p xs h.0, Pairs-filter R xs h.1)
    | inr e ↦ rw e (Pairs-filter R xs h.1)
  ]

pub All-of_map {ℓ ν κ} :
    {A : Type ℓ} {B : Type ν} (P : B → Type κ) (g : A → B) (xs : List A)
    → All P (map g xs)
    → All (λ a. P (g a)) xs
All-of_map P g [] h = tt
All-of_map P g (x ∷ xs) h = (h.0, All-of_map P g xs h.1)
