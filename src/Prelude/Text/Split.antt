-- ===== src/Prelude/Text/Split.antt =====
-- `strings.Split` at a character and `strings.TrimSpace` of Go, on texts.
use Prim.Native.Char.{Char, code}
use Prim.Native.String.{String}
use Prim.Native.Nat.{ℕ}
use text.Mathlib.TextLemmas.{nil-append, cons-append}
use mathlib.Core.Path.{◌≡◌, refl}
use mathlib.Core.Logic.{inl, inr}
use mathlib.Core.Bool.{Bool, true, false, ◌&&◌, ◌||◌}
use mathlib.Core.List.{List, [], ◌∷◌}
use smart_hpa.Prelude.Tests.{leb, ◌==◌, if◌then◌else◌, Bool-cases, ==_iff}
use native.Mathlib.Omega.{arith}
use smart_hpa.Prelude.Lists.{All}
use smart_hpa.Prelude.Text.{append, join}

abbrev pub prefix_first : String → List String → List String
prefix_first s [] = s ∷ []
prefix_first s (t ∷ ts) = append s t ∷ ts

-- `strings.Split(s, sep)`, for a separator of one character of the code `c`.
unfoldable pub split : ℕ → String → List String
split c String.[] = "" ∷ []
split c (String.◌∷◌ d s) =
    let rest = split c s in
    if code d == c then "" ∷ rest else prefix_first (String.◌∷◌ d String.[]) rest

-- `unicode.IsSpace`
abbrev pub is_space : ℕ → Bool
is_space n =
    (leb 9 n && leb n 13)
    || (n == 32)
    || (n == 133)
    || (n == 160)
    || (n == 5760)
    || (leb 8192 n && leb n 8202)
    || (n == 8232)
    || (n == 8233)
    || (n == 8239)
    || (n == 8287)
    || (n == 12288)

abbrev pub trim_left : String → String
trim_left String.[] = ""
trim_left (String.◌∷◌ d s) =
    let rest = trim_left s in if is_space (code d) then rest else String.◌∷◌ d s

abbrev pub keep_right : Bool → String → String → String
keep_right true c String.[] = ""
keep_right _ c s = append c s

abbrev pub trim_right : String → String
trim_right String.[] = ""
trim_right (String.◌∷◌ d s) = keep_right (is_space (code d)) (String.◌∷◌ d String.[]) (trim_right s)

abbrev pub trim_space : String → String
trim_space s = trim_right (trim_left s)

-- The text has no character of that code.
abbrev pub lacks : ℕ → String → Bool
lacks c String.[] = true
lacks c (String.◌∷◌ d s) = let rest = lacks c s in if code d == c then false else rest

abbrev pub is_blank : String → Bool
is_blank String.[] = true
is_blank (String.◌∷◌ d s) = false

split_runs : split b',' "M, TU,,F" ≡ "M" ∷ " TU" ∷ "" ∷ "F" ∷ []
unfolding split
split_runs = refl

trim_runs : (trim_space "  M U " ≡ "M U") × (trim_space "   " ≡ "")
trim_runs = (refl, refl)

single-append : (d : Char) (s : String) → append (String.◌∷◌ d String.[]) s ≡ String.◌∷◌ d s
single-append d s = rw (cons-append d String.[] s, nil-append s) refl

lacks-cons :
    (c : ℕ) (d : Char) (s : String)
    → lacks c (String.◌∷◌ d s) ≡ true
    → ((code d == c) ≡ false) × (lacks c s ≡ true)
lacks-cons c d s h = elim (Bool-cases (code d == c)) [ inl e ↦ cc | inr e ↦ (e, grind arith) ]

split-lacking : (c : ℕ) (s : String) → lacks c s ≡ true → split c s ≡ s ∷ []
unfolding split
split-lacking c String.[] h = refl
split-lacking c (String.◌∷◌ d s) h =
    let (other, later) = lacks-cons c d s h in
    rw (other, split-lacking c s later) (rw (single-append d s) refl)

split-separated :
    (d : Char) (s t : String)
    → lacks (code d) s ≡ true
    → split (code d) (append s (String.◌∷◌ d t)) ≡ s ∷ split (code d) t
unfolding split
split-separated d String.[] t h =
    let same : (code d == code d) ≡ true = (==_iff (code d) (code d)).1 refl in
    rw (nil-append (String.◌∷◌ d t), same) refl
split-separated d (String.◌∷◌ e s) t h =
    let (other, later) = lacks-cons (code d) e s h in
    rw (cons-append e s (String.◌∷◌ d t), other, split-separated d s t later)
      (rw (single-append e s) refl)

-- Parts without the separator are read back from their join.
pub split-join :
    (d : Char) (s : String) (ss : List String)
    → All (λ t. lacks (code d) t ≡ true) (s ∷ ss)
    → split (code d) (join (String.◌∷◌ d String.[]) (s ∷ ss)) ≡ s ∷ ss
unfolding join
split-join d s [] h = split-lacking (code d) s h.0
split-join d s (t ∷ ts) h =
    rw
      (
        single-append d (join (String.◌∷◌ d String.[]) (t ∷ ts)),
        split-separated d s (join (String.◌∷◌ d String.[]) (t ∷ ts)) h.0,
        split-join d t ts h.1,
      )
      refl

pub is_blank-append : (s t : String) → is_blank t ≡ false → is_blank (append s t) ≡ false
is_blank-append String.[] t h = rw (nil-append t) h
is_blank-append (String.◌∷◌ d s) t h = rw (cons-append d s t) refl

-- A text with a first part that is not empty is not empty.
pub split-nonempty :
    (c : ℕ) (t s : String) (ss : List String)
    → split c t ≡ s ∷ ss
    → is_blank s ≡ false
    → is_blank t ≡ false
unfolding split
split-nonempty c String.[] s ss e h = cc
split-nonempty c (String.◌∷◌ d t) s ss e h = refl
