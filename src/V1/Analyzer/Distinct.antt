-- ===== src/V1/Analyzer/Distinct.antt =====
-- `set` of numbers in ml/pattern_analyzer.py, and `sorted` of it.
use smart_hpa.Prelude.{
  ℕ, ◌≡◌, ◌≢◌, ◌<◌, ◌≤◌, ◌↔◌, ◌∙◌, sym, ◌⊎◌, inl, inr, true, false, List, [], ◌∷◌, All, All-and,
  Any, Any-imp, Pairs, Bool-cases, ◌==◌, ltb, arith,
}
use smart_hpa.Prelude.Sort.{sorted, sorted-Pairs, sorted-Pairs_sym, Any-sorted, Any-of_sorted}
use smart_hpa.V1.Analyzer.{elem, distinct}

elem-Any : (n : ℕ) (xs : List ℕ) → elem n xs ≡ true → Any (λ x. x ≡ n) xs
elem-Any n [] e = cc
elem-Any n (x ∷ xs) e = elim (Bool-cases (n == x)) [
  | inl k ↦ inl (ground arith)
  | inr k ↦ inr (elem-Any n xs (rw k at e))
]

pub Any-distinct : (d : ℕ) (xs : List ℕ) → Any (λ e. e ≡ d) xs → Any (λ e. e ≡ d) (distinct xs)
Any-distinct d [] m = m
Any-distinct d (x ∷ xs) m = elim (Bool-cases (elem x xs)) [
  | inl k ↦ rw k (
      Any-distinct d xs
        (elim m [ inl e ↦ Any-imp (λ y same. same ∙ e) xs (elem-Any x xs k) | inr n ↦ n ]))
  | inr k ↦ rw k (elim m [ inl e ↦ inl e | inr n ↦ inr (Any-distinct d xs n) ])
]

Any-of_distinct : (d : ℕ) (xs : List ℕ) → Any (λ e. e ≡ d) (distinct xs) → Any (λ e. e ≡ d) xs
Any-of_distinct d [] m = m
Any-of_distinct d (x ∷ xs) m = elim (Bool-cases (elem x xs)) [
  | inl k ↦ inr (Any-of_distinct d xs (rw k at m))
  | inr k ↦
      let n : (x ≡ d) ⊎ Any (λ e. e ≡ d) (distinct xs) = rw k at m in
      elim n [ inl e ↦ inl e | inr later ↦ inr (Any-of_distinct d xs later) ]
]

not-elem-All : (x : ℕ) (xs : List ℕ) → elem x xs ≡ false → All (λ y. x ≢ y) xs
not-elem-All x [] e = tt
not-elem-All x (y ∷ ys) e = elim (Bool-cases (x == y)) [
  | inl same ↦ let found = rw same at e in cc
  | inr apart ↦ (λ p. ground (arith, p, apart), not-elem-All x ys (rw apart at e))
]

pub All-distinct {κ} : (P : ℕ → Type κ) (xs : List ℕ) → All P xs → All P (distinct xs)
All-distinct P [] h = tt
All-distinct P (x ∷ xs) h = elim (Bool-cases (elem x xs)) [
  | inl k ↦ rw k (All-distinct P xs h.1)
  | inr k ↦ rw k (h.0, All-distinct P xs h.1)
]

distinct-Pairs : (xs : List ℕ) → Pairs ◌≢◌ (distinct xs)
distinct-Pairs [] = tt
distinct-Pairs (x ∷ xs) = elim (Bool-cases (elem x xs)) [
  | inl k ↦ rw k (distinct-Pairs xs)
  | inr k ↦ rw k (All-distinct (λ y. x ≢ y) xs (not-elem-All x xs k), distinct-Pairs xs)
]

Pairs-lt : (xs : List ℕ) → Pairs ◌≤◌ xs → Pairs ◌≢◌ xs → Pairs ◌<◌ xs
Pairs-lt [] l n = tt
Pairs-lt (x ∷ xs) l n = (All-and (λ y a b. ground (arith, a, b)) xs l.0 n.0, Pairs-lt xs l.1 n.1)

-- `sorted(set(xs))` rises strictly.
pub sorted-distinct-Pairs : (xs : List ℕ) → Pairs ◌<◌ (sorted (λ x y. ltb y x) (distinct xs))
sorted-distinct-Pairs xs =
    Pairs-lt (sorted (λ x y. ltb y x) (distinct xs))
      (sorted-Pairs (λ x y. ltb y x) ◌≤◌ (λ x y z l m. omega arith) (λ x y e. ground (arith, e))
        (λ x y e. ground (arith, e)) (distinct xs))
      (sorted-Pairs_sym (λ x y. ltb y x) ◌≢◌ (λ x y n e. n (sym e)) (distinct xs)
        (distinct-Pairs xs))

-- `sorted(set(xs))` has the elements of `xs`.
pub sorted-distinct-Any :
    (d : ℕ) (xs : List ℕ)
    → Any (λ e. e ≡ d) (sorted (λ x y. ltb y x) (distinct xs)) ↔ Any (λ e. e ≡ d) xs
sorted-distinct-Any d xs = (
  λ m. Any-of_distinct d xs (Any-of_sorted (λ x y. ltb y x) (λ e. e ≡ d) (distinct xs) m),
  λ m. Any-sorted (λ x y. ltb y x) (λ e. e ≡ d) (distinct xs) (Any-distinct d xs m),
)
