-- ===== src/V1/Analyzer/Library.antt =====
-- What is documented of the libraries that `analyze` of ml/pattern_analyzer.py calls.
use mathlib.Core.List.{flat_map}
use smart_hpa.Prelude.{
  some, ℕ, ◌<◌, ◌≤◌, ◌≡◌, Bool, true, false, List, [], ◌∷◌, map, length, All, All-append, ok,
  Returns, if◌then◌else◌,
}
use smart_hpa.Prelude.Int.{pos}
use smart_hpa.Float.{Float}
use smart_hpa.V1.Prometheus.{Frame, time, number, get_cell}
use smart_hpa.V1.Analyzer.Tables.{Unified, Featured, Slot, Present, Tools}
use smart_hpa.V1.Analyzer.Detect.{feature_values}

module _ {F : Type 0} (IsFinite : F → Type 0) where
  abbrev pub IsNumber : Unified F → Type 0
  IsNumber row = IsFinite row.replicas_mean × IsFinite row.cpu_mean × IsFinite row.memory_mean

  -- Each row of the frame has a time, and a finite number as its value.
  abbrev pub IsNumeric : Frame F → Type 0
  IsNumeric frame =
      All
        (λ row.
          ((t : ℕ) × (get_cell "timestamp" row ≡ some (time t)))
          × ((x : F) × (get_cell "value" row ≡ some (number x)) × IsFinite x))
        frame

module _ {F : Type 0} ⦃f : Float F⦄ (tools : Tools F) (IsFinite : F → Type 0) where
  abbrev pub IsFeature : Featured F → Type 0
  IsFeature row =
      (row.day_of_week < 7)
      × (row.time_slot < 96)
      × IsFinite row.unified.replicas_mean
      × IsFinite row.unified.cpu_mean
      × IsFinite row.unified.memory_mean

  abbrev pub IsSlot : Slot F → Type 0
  IsSlot slot =
      (slot.day_of_week < 7)
      × (slot.time_slot < 96)
      × IsFinite slot.replicas_mean
      × IsFinite slot.cpu_mean
      × IsFinite slot.memory_mean
      × IsFinite slot.time_of_day
      × IsFinite slot.is_weekend

  -- Frames with rows, each with a time and a finite number, and at least one of them, are joined to
  -- rows of such numbers, a group has the day and the slot of its rows, the scaler keeps the number of
  -- rows, KMeans labels points that are at least as many as the clusters, and the greatest of finite
  -- numbers has an integer above it.
  pub record IsLibrary : Type 0 where
    pub unify_law :
        (dfs : List (Frame F))
        → 1 ≤ length dfs
        → All (λ df. 1 ≤ length df) dfs
        → All (IsNumeric IsFinite) dfs
        → (rows : List (Unified F)) × (tools.unify dfs ≡ ok rows) × All (IsNumber IsFinite) rows
    pub group_law : (rows : List (Featured F)) → All IsFeature rows → All IsSlot (tools.group rows)
    pub scale_law :
        (xs : List (List F))
        → 1 ≤ length xs
        → All (All IsFinite) xs
        → (ys : List (List F)) × (tools.scale xs ≡ ok ys)
          × (length ys ≡ length xs)
          × All (All IsFinite) ys
    pub fit_law :
        (xs : List (List F)) (k : ℕ)
        → 1 ≤ k
        → k ≤ length xs
        → All (All IsFinite) xs
        → Returns (tools.fit_predict xs k)
    pub one_law : IsFinite (f.of_int (pos 1))
    pub peak_law :
        (x : F) (xs : List F)
        → IsFinite x
        → All IsFinite xs
        → Returns (f.int (f.ceil (f.amax (x ∷ xs))))

pub All-flat {ℓ} :
    {A : Type ℓ} (P : A → Type 0) (xs : List (List A))
    → All (All P) xs
    → All P (flat_map (λ x. x) xs)
unfolding flat_map
All-flat P [] h = tt
All-flat P (x ∷ xs) h = All-append P x (flat_map (λ y. y) xs) h.0 (All-flat P xs h.1)

pub All-map {ℓ κ} :
    {A : Type ℓ} {B : Type κ} (P : A → Type 0) (Q : B → Type 0) (g : A → B)
    → ((a : A) → P a → Q (g a))
    → (xs : List A) → All P xs
    → All Q (map g xs)
All-map P Q g k [] h = tt
All-map P Q g k (x ∷ xs) h = (k x h.0, All-map P Q g k xs h.1)

-- A list that is there under a test only.
pub All-if {ℓ} :
    {A : Type ℓ} (P : A → Type 0) (b : Bool) (xs : List A) → All P xs → All P (if b then xs else [])
All-if P true xs h = h
All-if P false xs h = tt

-- The rows of features are finite.
pub feature_values-All :
    {F : Type 0} ⦃f : Float F⦄ (tools : Tools F) (IsFinite : F → Type 0) (columns : Present)
    (slot : Slot F)
    → IsSlot tools IsFinite slot
    → All IsFinite (feature_values tools columns slot)
unfolding feature_values
feature_values-All tools IsFinite columns slot h =
    All-append IsFinite (if columns.has_cpu then slot.cpu_mean ∷ [] else []) _
      (All-if IsFinite columns.has_cpu (slot.cpu_mean ∷ []) (h.3, tt))
      (All-append IsFinite (if columns.has_memory then slot.memory_mean ∷ [] else []) _
        (All-if IsFinite columns.has_memory (slot.memory_mean ∷ []) (h.4, tt))
        (All-append IsFinite (if columns.has_replicas then slot.replicas_mean ∷ [] else []) _
          (All-if IsFinite columns.has_replicas (slot.replicas_mean ∷ []) (h.2, tt))
          (h.5, (h.6, tt))))
