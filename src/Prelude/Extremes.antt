-- ===== src/Prelude/Extremes.antt =====
-- The least and the greatest number of a list, as `min` and `max` fold it.
use Prim.Native.Nat.{ℕ, ◌≤◌, min, max}
use mathlib.Core.List.{List, [], ◌∷◌, foldl}
use native.Mathlib.Omega.{arith}
use smart_hpa.Prelude.Lists.{All}

pub foldl-min :
    (acc : ℕ) (xs : List ℕ) → (foldl min acc xs ≤ acc) × All (λ h. foldl min acc xs ≤ h) xs
foldl-min acc [] = omega arith
foldl-min acc (x ∷ xs) =
    let (below, all) = foldl-min (min acc x) xs in (omega arith, (omega arith, all))

pub foldl-max :
    (acc : ℕ) (xs : List ℕ) → (acc ≤ foldl max acc xs) × All (λ h. h ≤ foldl max acc xs) xs
foldl-max acc [] = omega arith
foldl-max acc (x ∷ xs) =
    let (above, all) = foldl-max (max acc x) xs in (omega arith, (omega arith, all))
