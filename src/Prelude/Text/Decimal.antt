-- ===== src/Prelude/Text/Decimal.antt =====
-- The number that a decimal text stands for: `str` of a number is read back.
use Prim.Native.Char.{code}
use Prim.Native.String.{String}
use Prim.Native.Nat.{ℕ, zero, suc, ◌+◌, ◌-◌, ◌*◌, ◌/◌, ◌%◌, ◌<◌}
use text.Mathlib.TextLemmas.{nil-append, cons-append}
use mathlib.Core.Path.{◌≡◌, refl, ap, sym, ◌∙◌}
use mathlib.Core.Logic.{inl, inr}
use mathlib.Core.Bool.{true, false}
use native.Mathlib.Omega.{arith}
use smart_hpa.Prelude.Tests.{ltb, lt_or_le}
use smart_hpa.Prelude.Text.{append, decimal, digits_of, digit}

abbrev number_from : ℕ → String → ℕ
number_from n String.[] = n
number_from n (String.◌∷◌ c s) = number_from (n * 10 + (code c - 48)) s

abbrev pub number_of : String → ℕ
number_of s = number_from 0 s

number_from-append :
    (n : ℕ) (s t : String) → number_from n (append s t) ≡ number_from (number_from n s) t
number_from-append n String.[] t = rw (nil-append t) refl
number_from-append n (String.◌∷◌ c s) t =
    rw (cons-append c s t) (number_from-append (n * 10 + (code c - 48)) s t)

number_from-digit : (n d : ℕ) → d < 10 → number_from n (digit d) ≡ n * 10 + d
unfolding digit
number_from-digit n zero h = omega arith
number_from-digit n (suc zero) h = refl
number_from-digit n (suc (suc zero)) h = refl
number_from-digit n (suc (suc (suc zero))) h = refl
number_from-digit n (suc (suc (suc (suc zero)))) h = refl
number_from-digit n (suc (suc (suc (suc (suc zero))))) h = refl
number_from-digit n (suc (suc (suc (suc (suc (suc zero)))))) h = refl
number_from-digit n (suc (suc (suc (suc (suc (suc (suc zero))))))) h = refl
number_from-digit n (suc (suc (suc (suc (suc (suc (suc (suc zero)))))))) h = refl
number_from-digit n (suc (suc (suc (suc (suc (suc (suc (suc (suc zero))))))))) h = refl
number_from-digit n (suc (suc (suc (suc (suc (suc (suc (suc (suc (suc d)))))))))) h =
    absurd (omega arith)

number_of-digits : (fuel n : ℕ) → n < fuel → number_of (digits_of fuel n) ≡ n
unfolding digits_of
number_of-digits zero n h = absurd (omega arith)
number_of-digits (suc fuel) n h = elim (lt_or_le n 10) [
  | inl one ↦
      let short : ltb n 10 ≡ true = ground arith in
      rw short (number_from-digit 0 n one ∙ omega arith)
  | inr more ↦
      let long : ltb n 10 ≡ false = ground arith in
      let front : number_of (digits_of fuel (n / 10)) ≡ n / 10 =
        number_of-digits fuel (n / 10) (omega arith) in
      let last : n % 10 < 10 = omega arith in
      rw (long, number_from-append 0 (digits_of fuel (n / 10)) (digit (n % 10)), front)
        (number_from-digit (n / 10) (n % 10) last ∙ omega arith)
]

-- The text of a number is read back as that number.
pub number_of-decimal : (n : ℕ) → number_of (decimal n) ≡ n
unfolding decimal
number_of-decimal n = number_of-digits (n + 1) n (omega arith)

-- No two numbers have the same text.
pub decimal-injective : (m n : ℕ) → decimal m ≡ decimal n → m ≡ n
decimal-injective m n e =
    sym (number_of-decimal m) ∙ (ap (λ s. number_of s) e ∙ number_of-decimal n)
