-- ===== src/V2/Postprocessor/Dedup.antt =====
-- `_deduplicate`: one trigger for each window, the first in order.
use mathlib.Core.Path.{subst}
use mathlib.Core.Bool.{false≢true}
use text.Mathlib.TextEquality.{eq_iff}
use smart_hpa.Prelude.{
  All-and, ◌≤◌, ◌≡◌, ◌≢◌, ◌↔◌, refl, sym, ◌⊎◌, inl, inr, true, false, String, List, [], ◌∷◌, All,
  Any, Pairs, All-imp, arith, Bool-cases,
}
use smart_hpa.V2.Config.{TriggerConfig}
use smart_hpa.V2.Postprocessor.{window_key, same_texts, seen_in, dedup_from, deduplicate}

same_texts_iff : (xs ys : List String) → (same_texts xs ys ≡ true) ↔ (xs ≡ ys)
same_texts_iff [] [] = ground arith
same_texts_iff [] (y ∷ ys) = ground arith
same_texts_iff (x ∷ xs) [] = ground arith
same_texts_iff (x ∷ xs) (y ∷ ys) = ground (arith, eq_iff x y, same_texts_iff xs ys)

seen_in-Any :
    (key : List String) (seen : List (List String))
    → seen_in key seen ≡ true
    → Any (λ k. k ≡ key) seen
seen_in-Any key [] h = cc
seen_in-Any key (k ∷ ks) h = elim (Bool-cases (same_texts key k)) [
  | inl e ↦ inl (sym ((same_texts_iff key k).0 e))
  | inr e ↦ inr (seen_in-Any key ks (rw e at h))
]

module _ {F : Type 0} where
  deduplicate-eq-dedup_from : (ts : List (TriggerConfig F)) → deduplicate ts ≡ dedup_from [] ts
  unfolding deduplicate
  deduplicate-eq-dedup_from [] = refl
  deduplicate-eq-dedup_from (t ∷ []) = refl
  deduplicate-eq-dedup_from (t ∷ u ∷ ts) = ground arith

  -- What holds of all triggers holds of those that are kept.
  pub All-dedup_from {κ} :
      (P : TriggerConfig F → Type κ) (seen : List (List String)) (ts : List (TriggerConfig F))
      → All P ts
      → All P (dedup_from seen ts)
  unfolding dedup_from
  All-dedup_from P seen [] h = tt
  All-dedup_from P seen (t ∷ ts) h = elim (Bool-cases (seen_in (window_key t) seen)) [
    | inl e ↦ rw e (All-dedup_from P seen ts h.1)
    | inr e ↦ rw e ((h.0, All-dedup_from P (window_key t ∷ seen) ts h.1))
  ]

  Pairs-dedup_from {κ} :
      (R : TriggerConfig F → TriggerConfig F → Type κ) (seen : List (List String))
      (ts : List (TriggerConfig F))
      → Pairs R ts
      → Pairs R (dedup_from seen ts)
  unfolding dedup_from
  Pairs-dedup_from R seen [] h = tt
  Pairs-dedup_from R seen (t ∷ ts) h = elim (Bool-cases (seen_in (window_key t) seen)) [
    | inl e ↦ rw e (Pairs-dedup_from R seen ts h.1)
    | inr e ↦ rw e (
        (
          All-dedup_from (R t) (window_key t ∷ seen) ts h.0,
          Pairs-dedup_from R (window_key t ∷ seen) ts h.1,
        ))
  ]

  -- No kept trigger has a window that was seen before.
  dedup_from-fresh :
      (seen : List (List String)) (ts : List (TriggerConfig F))
      → All (λ t. seen_in (window_key t) seen ≡ false) (dedup_from seen ts)
  unfolding dedup_from
  dedup_from-fresh seen [] = tt
  dedup_from-fresh seen (t ∷ ts) = elim (Bool-cases (seen_in (window_key t) seen)) [
    | inl e ↦ rw e (dedup_from-fresh seen ts)
    | inr e ↦ rw e (
        (
          e,
          All-imp (λ u h. ground arith) (dedup_from (window_key t ∷ seen) ts)
              (dedup_from-fresh (window_key t ∷ seen) ts),
        ))
  ]

  dedup_from-distinct :
      (seen : List (List String)) (ts : List (TriggerConfig F))
      → Pairs (λ t u. window_key u ≢ window_key t) (dedup_from seen ts)
  unfolding dedup_from
  dedup_from-distinct seen [] = tt
  dedup_from-distinct seen (t ∷ ts) = elim (Bool-cases (seen_in (window_key t) seen)) [
    | inl e ↦ rw e (dedup_from-distinct seen ts)
    | inr e ↦ rw e (
        (
          All-imp (λ u h. ground (arith, same_texts_iff (window_key u) (window_key t)))
              (dedup_from (window_key t ∷ seen) ts) (dedup_from-fresh (window_key t ∷ seen) ts),
          dedup_from-distinct (window_key t ∷ seen) ts,
        ))
  ]

  abbrev pub Covers : TriggerConfig F → TriggerConfig F → Type 0
  Covers u t = (window_key t ≡ window_key u) × (u.priority ≤ t.priority)

  abbrev pub Ranked : List (TriggerConfig F) → Type 0
  Ranked = Pairs (λ t u. u.priority ≤ t.priority)

  Covers-next :
      (seen : List (List String)) (t u : TriggerConfig F) (kept : List (TriggerConfig F))
      → u.priority ≤ t.priority
      → (seen_in (window_key u) (window_key t ∷ seen) ≡ true) ⊎ Any (Covers u) kept
      → (seen_in (window_key u) seen ≡ true) ⊎ Any (Covers u) (t ∷ kept)
  Covers-next seen t u kept le (inr c) = inr (inr c)
  Covers-next seen t u kept le (inl s) =
      elim (Bool-cases (same_texts (window_key u) (window_key t))) [
        | inl e ↦ inr (inl (sym ((same_texts_iff (window_key u) (window_key t)).0 e), le))
        | inr e ↦ inl (rw e at s)
      ]

  dedup_from-old :
      (seen : List (List String)) (t : TriggerConfig F) (ts : List (TriggerConfig F))
      → seen_in (window_key t) seen ≡ true
      → dedup_from seen (t ∷ ts) ≡ dedup_from seen ts
  unfolding dedup_from
  dedup_from-old seen t ts e = rw e

  dedup_from-new :
      (seen : List (List String)) (t : TriggerConfig F) (ts : List (TriggerConfig F))
      → seen_in (window_key t) seen ≡ false
      → dedup_from seen (t ∷ ts) ≡ t ∷ dedup_from (window_key t ∷ seen) ts
  unfolding dedup_from
  dedup_from-new seen t ts e = rw e

  abbrev IsCovered : List (List String) → List (TriggerConfig F) → TriggerConfig F → Type 0
  IsCovered seen kept u = (seen_in (window_key u) seen ≡ true) ⊎ Any (Covers u) kept

  -- Of each trigger a kept one has the same window and no lower priority, unless its window was seen.
  dedup_from-covers :
      (seen : List (List String)) (ts : List (TriggerConfig F))
      → Ranked ts
      → All (IsCovered seen (dedup_from seen ts)) ts
  dedup_from-covers seen [] r = tt
  dedup_from-covers seen (t ∷ ts) r = elim (Bool-cases (seen_in (window_key t) seen)) [
    | inl e ↦
        subst (λ kept. All (IsCovered seen kept) (t ∷ ts)) (sym (dedup_from-old seen t ts e))
          (inl e, dedup_from-covers seen ts r.1)
    | inr e ↦
        subst (λ kept. All (IsCovered seen kept) (t ∷ ts)) (sym (dedup_from-new seen t ts e))
          (
            inr (inl (refl, omega arith)),
            All-and (λ u le c. Covers-next seen t u (dedup_from (window_key t ∷ seen) ts) le c) ts
                r.0 (dedup_from-covers (window_key t ∷ seen) ts r.1),
          )
  ]

  -- On triggers in falling order of priority, `_deduplicate` keeps the order, no two kept triggers have
  -- the same window and days, and each trigger's window and days are those of a kept one with no lower
  -- priority.
  pub deduplicate_lem :
      (ts : List (TriggerConfig F))
      → Ranked ts
      → Ranked (deduplicate ts)
        × Pairs (λ t u. window_key u ≢ window_key t) (deduplicate ts)
        × All (λ u. Any (Covers u) (deduplicate ts)) ts
  deduplicate_lem ts r =
      subst
        (λ kept.
          Ranked kept
          × Pairs (λ t u. window_key u ≢ window_key t) kept
          × All (λ u. Any (Covers u) kept) ts)
        (sym (deduplicate-eq-dedup_from ts))
        (
          Pairs-dedup_from (λ t u. u.priority ≤ t.priority) [] ts r,
          dedup_from-distinct [] ts,
          All-imp (λ u c. elim c [ inl s ↦ absurd (false≢true s) | inr a ↦ a ]) ts
              (dedup_from-covers [] ts r),
        )

  pub All-deduplicate {κ} :
      (P : TriggerConfig F → Type κ) (ts : List (TriggerConfig F))
      → All P ts
      → All P (deduplicate ts)
  All-deduplicate P ts h =
      subst (All P) (sym (deduplicate-eq-dedup_from ts)) (All-dedup_from P [] ts h)

  pub Pairs-deduplicate {κ} :
      (R : TriggerConfig F → TriggerConfig F → Type κ) (ts : List (TriggerConfig F))
      → Pairs R ts
      → Pairs R (deduplicate ts)
  Pairs-deduplicate R ts h =
      subst (Pairs R) (sym (deduplicate-eq-dedup_from ts)) (Pairs-dedup_from R [] ts h)
