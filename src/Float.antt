-- ===== src/Float.antt =====
-- The operations on 64-bit floats that the Python code takes from Python and from numpy. Neither is
-- part of the repository, so the type of floats and its operations are a parameter.
use smart_hpa.Prelude.{ℕ, List, Bool, Result}
use smart_hpa.Prelude.Int.{ℤ}

pub record Float (F : Type 0) : Type 0 where
  -- `literal m k` is the decimal literal m / 10^k: `literal 12 1` is 1.2.
  pub literal : ℕ → ℕ → F
  pub inf : F
  -- A Python `int` in a float operation.
  pub of_int : ℤ → F
  pub add : F → F → F
  pub sub : F → F → F
  pub mul : F → F → F
  pub div : F → F → F
  pub abs : F → F
  -- `x < y`, `x <= y` and `x == y`; all three are false where an operand is NaN.
  pub lt : F → F → Bool
  pub le : F → F → Bool
  pub eq : F → F → Bool
  -- `int(x)` cuts the fraction off; it raises at NaN and at the infinities.
  pub int : F → Result ℤ
  -- `np.ceil(x)`
  pub ceil : F → F
  -- `round(x, 2)`
  pub round2 : F → F
  -- numpy's `mean`, `std`, `min`, `max` and `percentile` of an array that is not empty.
  pub mean : List F → F
  pub std : List F → F
  pub amin : List F → F
  pub amax : List F → F
  pub percentile : List F → ℕ → F
  -- `np.maximum` of two numbers.
  pub maximum : F → F → F
