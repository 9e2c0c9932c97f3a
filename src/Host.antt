-- ===== src/Host.antt =====
-- What the generators of sample data take from Python and from numpy, apart from the arithmetic of
-- floats: numpy's global random generator, whose state is `S`, rounding, and the time zone.
use smart_hpa.Prelude.{ℕ, List, Option, Result, Error}
use smart_hpa.Prelude.Int.{ℤ}

pub record Host (F : Type 0) (S : Type 0) : Type 0 where
  -- `np.random.seed(seed)`; `seed(None)` takes a seed from the system.
  pub seed : Option ℕ → S → Result S
  -- `np.random.uniform(low, high)`, `np.random.normal(mean, deviation)`, `np.random.random()`
  pub uniform : F → F → S → Result (F × S)
  pub normal : F → F → S → Result (F × S)
  pub random : S → F × S
  -- `np.random.normal(mean, deviation, n)`, an array of n numbers.
  pub normals : F → F → ℕ → S → Result (List F × S)
  -- `np.random.randint(low, high)`
  pub randint : ℤ → ℤ → S → ℤ × S
  -- `round(x)`, an `int`; it raises at NaN and at the infinities.
  pub round : F → Result ℤ
  -- `np.round(x)`, a float.
  pub rint : F → F
  -- `ts.timestamp()` reads a naive `datetime` as a time of the system's zone.
  -- Its exception, as on the first day of the calendar, and its value where there is none.
  pub timestamp_error : ℕ → Option Error
  pub timestamp : ℕ → F
