-- ===== src/Prelude/Text.antt =====
-- Python texts: f-strings as the concatenation of their parts, `sep.join`, and `int` formats.
pub mod Decimal
pub mod Split
use Prim.Native.Nat.{ℕ, zero, suc, ◌+◌, ◌/◌, ◌%◌}
use Prim.Native.String
pub use text.Mathlib.Text.{◌==◌ as str_eq}
use Prim.Native.String.{String}
use smart_hpa.Prelude.Int.{ℤ, pos, negsuc}
use mathlib.Core.Path.{◌≡◌, refl}
use mathlib.Core.List.{List, [], ◌∷◌}
use smart_hpa.Prelude.Tests.{ltb, ◌==◌, if◌then◌else◌}

abbrev pub append : String → String → String
append s t = String.◌++◌ s t

-- An f-string.
unfoldable pub concat : List String → String
concat [] = ""
concat (s ∷ ss) = append s (concat ss)

-- `sep.join(parts)`
unfoldable pub join : String → List String → String
join sep [] = ""
join sep (s ∷ []) = s
join sep (s ∷ t ∷ ss) = append s (append sep (join sep (t ∷ ss)))

digit : ℕ → String
digit d =
    if d == 0
    then "0"
    else if d == 1
    then "1"
    else if d == 2
    then "2"
    else if d == 3
    then "3"
    else if d == 4
    then "4"
    else if d == 5
    then "5"
    else if d == 6
    then "6"
    else if d == 7
    then "7"
    else if d == 8
    then "8"
    else "9"

digits_of : ℕ → ℕ → String
unfolding digit
digits_of zero n = ""
digits_of (suc fuel) n =
    let rest = append (digits_of fuel (n / 10)) (digit (n % 10)) in
    if ltb n 10 then digit n else rest

-- `str(n)`; a number has fewer digits than `n + 1`.
unfoldable pub decimal : ℕ → String
unfolding digits_of
decimal n = digits_of (n + 1) n

-- `str(n)` of an `int`.
unfoldable pub int_text : ℤ → String
unfolding decimal
int_text (pos n) = decimal n
int_text (negsuc n) = append "-" (decimal (n + 1))

-- `f"{n:02d}"`
unfoldable pub two_digits : ℕ → String
unfolding decimal
two_digits n = if ltb n 10 then append "0" (decimal n) else decimal n

two_digits_runs : (two_digits 7 ≡ "07") × (two_digits 23 ≡ "23") × (decimal 1050 ≡ "1050")
unfolding two_digits
two_digits_runs = (refl, refl, refl)

joins : join "," ("M" ∷ "TU" ∷ "W" ∷ []) ≡ "M,TU,W"
unfolding join
joins = refl
