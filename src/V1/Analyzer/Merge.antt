-- ===== src/V1/Analyzer/Merge.antt =====
-- `_merge_similar_patterns`: no scheduled time of a pattern is lost.
use mathlib.Core.Path.{subst}
use mathlib.Core.Bool.{false≢true}
use smart_hpa.Prelude.{
  ℕ, suc, ◌≤◌, ◌<◌, ◌≡◌, refl, sym, ◌∙◌, ◌⊎◌, inl, inr, true, false, not, ◌&&◌, List, [], ◌∷◌,
  length, All, All-Any, All-self, Any, Bool-cases, leb, arith,
}
use smart_hpa.Float.{Float}
use smart_hpa.V1.Naming.{TimePattern}
use smart_hpa.V1.Analyzer.Group.{Spans, Spans-refl, merged-Spans}
use smart_hpa.V1.Analyzer.{elem, are_similar, gather, merged, merge_from, merge_similar_patterns}

-- Places and elements of a list, from place `i` on.
abbrev Placed {ℓ} : {A : Type ℓ} → (ℕ → A → Type 0) → ℕ → List A → Type 0
Placed R i [] = Unit
Placed R i (x ∷ xs) = R i x × Placed R (suc i) xs

module _ {ℓ} {A : Type ℓ} where
  Placed-imp :
      {R S : ℕ → A → Type 0} (b i : ℕ) (xs : List A)
      → b ≤ i
      → ((k : ℕ) (a : A) → b ≤ k → R k a → S k a)
      → Placed R i xs
      → Placed S i xs
  Placed-imp b i [] h f p = tt
  Placed-imp b i (x ∷ xs) h f p = (f i x h p.0, Placed-imp b (suc i) xs (omega arith) f p.1)

  Placed-and :
      {R S T : ℕ → A → Type 0} (b i : ℕ) (xs : List A)
      → b ≤ i
      → ((k : ℕ) (a : A) → b ≤ k → R k a → S k a → T k a)
      → Placed R i xs
      → Placed S i xs
      → Placed T i xs
  Placed-and b i [] h f p q = tt
  Placed-and b i (x ∷ xs) h f p q =
      (f i x h p.0 q.0, Placed-and b (suc i) xs (omega arith) f p.1 q.1)

  Placed-All :
      {R : ℕ → A → Type 0} {P : A → Type 0} (i : ℕ) (xs : List A)
      → ((k : ℕ) (a : A) → R k a → P a)
      → Placed R i xs
      → All P xs
  Placed-All i [] f p = tt
  Placed-All i (x ∷ xs) f p = (f i x p.0, Placed-All (suc i) xs f p.1)

module _ {F : Type 0} ⦃f : Float F⦄ where
  -- The index of an earlier place is not added.
  gather-elem :
      (k : ℕ) (used : List ℕ) (p : TimePattern F) (j : ℕ) (qs : List (TimePattern F))
      → k < j
      → elem k (gather used p j qs).1 ≡ elem k used
  unfolding gather
  gather-elem k used p j [] h = refl
  gather-elem k used p j (q ∷ qs) h = elim (Bool-cases (not (elem j used) && are_similar p q)) [
    | inl e ↦ rw e (gather-elem k (j ∷ used) p (suc j) qs (omega arith) ∙ ground arith)
    | inr e ↦ rw e (gather-elem k used p (suc j) qs (omega arith))
  ]

  abbrev IsGathered : List ℕ → List (TimePattern F) × List ℕ → ℕ → TimePattern F → Type 0
  IsGathered used found k a =
      (elem k found.1 ≡ false) ⊎ (elem k used ≡ true) ⊎ Any (λ b. b ≡ a) found.0

  gather-taken :
      (used : List ℕ) (p : TimePattern F) (j : ℕ) (q : TimePattern F) (qs : List (TimePattern F))
      → (not (elem j used) && are_similar p q) ≡ true
      → gather used p j (q ∷ qs)
        ≡ (q ∷ (gather (j ∷ used) p (suc j) qs).0, (gather (j ∷ used) p (suc j) qs).1)
  unfolding gather
  gather-taken used p j q qs e = rw e refl

  gather-left :
      (used : List ℕ) (p : TimePattern F) (j : ℕ) (q : TimePattern F) (qs : List (TimePattern F))
      → (not (elem j used) && are_similar p q) ≡ false
      → gather used p j (q ∷ qs) ≡ gather used p (suc j) qs
  unfolding gather
  gather-left used p j q qs e = rw e refl

  -- Each index that the inner loop adds is that of a gathered pattern.
  gather-IsGathered :
      (used : List ℕ) (p : TimePattern F) (j : ℕ) (qs : List (TimePattern F))
      → Placed (IsGathered used (gather used p j qs)) j qs
  gather-IsGathered used p j [] = tt
  gather-IsGathered used p j (q ∷ qs) = elim (Bool-cases (not (elem j used) && are_similar p q)) [
    | inl e ↦
        let taken = gather (j ∷ used) p (suc j) qs in
        subst (λ g. Placed (IsGathered used g) j (q ∷ qs)) (sym (gather-taken used p j q qs e))
          (
            inr (inr (inl refl)),
            Placed-imp {R = IsGathered (j ∷ used) taken}
                {S = IsGathered used (q ∷ taken.0, taken.1)} (suc j) (suc j) qs (omega arith)
                (λ k a le g. elim g [
                  | inl n ↦ inl n
                  | inr m ↦ elim m [ inl u ↦ inr (inl (ground arith)) | inr x ↦ inr (inr (inr x)) ]
                ])
                (gather-IsGathered (j ∷ used) p (suc j) qs),
          )
    | inr e ↦
        subst (λ g. Placed (IsGathered used g) j (q ∷ qs)) (sym (gather-left used p j q qs e))
          (
            elim (Bool-cases (elem j used)) [
              | inl u ↦ inr (inl u)
              | inr n ↦ inl (gather-elem j used p (suc j) qs (omega arith) ∙ n)
            ],
            gather-IsGathered used p (suc j) qs,
          )
  ]

  abbrev IsSpanned : List ℕ → List (TimePattern F) → ℕ → TimePattern F → Type 0
  IsSpanned used out k a = (elem k used ≡ true) ⊎ Any (λ q. Spans q a) out

  merge_from-old :
      (used : List ℕ) (i : ℕ) (p : TimePattern F) (ps : List (TimePattern F))
      → elem i used ≡ true
      → merge_from used i (p ∷ ps) ≡ merge_from used (suc i) ps
  unfolding merge_from
  merge_from-old used i p ps e = rw e refl

  merge_from-new :
      (used : List ℕ) (i : ℕ) (p : TimePattern F) (ps : List (TimePattern F))
      → elem i used ≡ false
      → merge_from used i (p ∷ ps)
        ≡ merged p (gather used p (suc i) ps).0
          ∷ merge_from (i ∷ (gather used p (suc i) ps).1) (suc i) ps
  unfolding merge_from
  merge_from-new used i p ps e = rw e refl

  -- A later pattern is used, or spanned by a merged one.
  later-IsSpanned :
      (used : List ℕ) (i : ℕ) (p : TimePattern F) (ps : List (TimePattern F))
      (rest : List (TimePattern F)) (k : ℕ) (a : TimePattern F)
      → suc i ≤ k
      → IsGathered used (gather used p (suc i) ps) k a
      → IsSpanned (i ∷ (gather used p (suc i) ps).1) rest k a
      → IsSpanned used (merged p (gather used p (suc i) ps).0 ∷ rest) k a
  later-IsSpanned used i p ps rest k a le g (inr m) = inr (inr m)
  later-IsSpanned used i p ps rest k a le (inl fresh) (inl e) = absurd (ground arith)
  later-IsSpanned used i p ps rest k a le (inr (inl u)) (inl e) = inl u
  later-IsSpanned used i p ps rest k a le (inr (inr m)) (inl e) =
      let found = (gather used p (suc i) ps).0 in
      inr (
        inl (
          All-Any (λ b s same. subst (Spans (merged p found)) same s) found (merged-Spans p found).1
            m))

  merge_from-Spans :
      (used : List ℕ) (i : ℕ) (ps : List (TimePattern F))
      → Placed (IsSpanned used (merge_from used i ps)) i ps
  merge_from-Spans used i [] = tt
  merge_from-Spans used i (p ∷ ps) = elim (Bool-cases (elem i used)) [
    | inl e ↦
        subst (λ out. Placed (IsSpanned used out) i (p ∷ ps)) (sym (merge_from-old used i p ps e))
          (inl e, merge_from-Spans used (suc i) ps)
    | inr e ↦
        let found = gather used p (suc i) ps in
        let rest = merge_from (i ∷ found.1) (suc i) ps in
        subst (λ out. Placed (IsSpanned used out) i (p ∷ ps)) (sym (merge_from-new used i p ps e))
          (
            inr (inl (merged-Spans p found.0).0),
            Placed-and {R = IsGathered used found} {S = IsSpanned (i ∷ found.1) rest}
                {T = IsSpanned used (merged p found.0 ∷ rest)} (suc i) (suc i) ps (omega arith)
                (λ k a le g s. later-IsSpanned used i p ps rest k a le g s)
                (gather-IsGathered used p (suc i) ps) (merge_from-Spans (i ∷ found.1) (suc i) ps),
          )
  ]

  -- Of each given pattern one of the merged patterns starts no later, ends no earlier, and has all of its
  -- days.
  pub merge_similar_patterns-Spans :
      (ps : List (TimePattern F)) → All (λ p. Any (λ q. Spans q p) (merge_similar_patterns ps)) ps
  unfolding merge_similar_patterns
  merge_similar_patterns-Spans ps = elim (Bool-cases (leb (length ps) 1)) [
    | inl e ↦ rw e (All-self Spans Spans-refl ps)
    | inr e ↦ rw e (
        Placed-All {R = IsSpanned [] (merge_from [] 0 ps)} 0 ps
          (λ k a s. elim s [ inl none_used ↦ absurd (false≢true none_used) | inr m ↦ m ])
          (merge_from-Spans [] 0 ps))
  ]
