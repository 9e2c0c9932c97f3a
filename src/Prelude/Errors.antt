-- ===== src/Prelude/Errors.antt =====
-- Python calls that may raise.
use mathlib.Core.Path.{◌≡◌, refl, subst, ap}
use smart_hpa.Prelude.Lists.{All, Any}
use mathlib.Core.Logic.{◌⊎◌, inl, inr}
use mathlib.Core.Option.{Option, none, some}
use mathlib.Core.List.{List, [], ◌∷◌, foldl}
use Prim.Native.Nat.{ℕ, zero, suc, min, max}

-- The exceptions that the modelled code can meet; `other_error` is any exception of a library call.
pub data Error : Type 0 where
  value_error key_error index_error overflow_error type_error request_error connection_error
        other_error :
      Error

pub data Result {ℓ} (V : Type ℓ) : Type ℓ where
  ok : V → Result V
  raise : Error → Result V

-- Python's sequence of two calls: the second one is not made where the first one raises.
abbrev pub ◌>>=◌ {ℓ κ} : {V : Type ℓ} {W : Type κ} → Result V → (V → Result W) → Result W
raise e >>= next = raise e
ok v >>= next = next v

infixl 5 ◌>>=◌
-- A call that may also not end, `none`, and the call after it.
abbrev pub and_then {ℓ κ} :
    {V : Type ℓ} {W : Type κ} → Option (Result V) → (V → Option (Result W)) → Option (Result W)
and_then none next = none
and_then (some (raise e)) next = some (raise e)
and_then (some (ok v)) next = next v

-- `[f(x) for x in xs]`, left to right; the first exception ends it.
abbrev pub traverse {ℓ κ} : {A : Type ℓ} {B : Type κ} → (A → Result B) → List A → Result (List B)
traverse f [] = ok []
traverse f (x ∷ xs) = do y ← f x; ys ← traverse f xs; ok (y ∷ ys)

pub Result-cases {ℓ} :
    {A : Type ℓ} (r : Result A) → ((a : A) × (r ≡ ok a)) ⊎ ((e : Error) × (r ≡ raise e))
Result-cases (ok a) = inl (a, refl)
Result-cases (raise e) = inr (e, refl)

-- A call that does not raise.
abbrev pub Returns {ℓ} : {A : Type ℓ} → Result A → Type ℓ
Returns {A} r = (a : A) × (r ≡ ok a)

-- What holds of the value, if the call returns.
abbrev pub Ensures {ℓ κ} : {A : Type ℓ} → (A → Type κ) → Result A → Type κ
Ensures P (ok a) = P a
Ensures P (raise e) = Unit

-- Where a sequence of two calls returns, so does each of them.
pub >>=-eq-ok {ℓ κ} :
    {V : Type ℓ} {W : Type κ} (call : Result V) (next : V → Result W) {w : W}
    → (call >>= next) ≡ ok w
    → (v : V) × (call ≡ ok v) × (next v ≡ ok w)
>>=-eq-ok (raise e) next returned = cc
>>=-eq-ok (ok v) next returned = (v, refl, returned)

value_or {ℓ} : {V : Type ℓ} → V → Result V → V
value_or v (ok w) = w
value_or v (raise e) = v

pub ok-injective {ℓ} : {V : Type ℓ} (v w : V) → ok v ≡ ok w → v ≡ w
unfolding value_or
ok-injective v w e = ap (λ r. value_or v r) e

-- `xs[i]`
abbrev pub index {ℓ} : {A : Type ℓ} → List A → ℕ → Result A
index [] i = raise index_error
index (x ∷ xs) zero = ok x
index (x ∷ xs) (suc i) = index xs i

-- `min(xs)` and `max(xs)` of numbers.
abbrev pub min_of : List ℕ → Result ℕ
min_of [] = raise value_error
min_of (x ∷ xs) = ok (foldl min x xs)

abbrev pub max_of : List ℕ → Result ℕ
max_of [] = raise value_error
max_of (x ∷ xs) = ok (foldl max x xs)

-- `R` holds of the elements at each place of two lists of one length.
abbrev pub Each {ℓ κ} : {A : Type ℓ} {B : Type κ} → (A → B → Type 0) → List A → List B → Type 0
Each R [] [] = Unit
Each R (a ∷ xs) (b ∷ ys) = R a b × Each R xs ys
Each R _ _ = ⊥

module _ {ℓ κ} {A : Type ℓ} {B : Type κ} where
  pub Each-imp :
      {R S : A → B → Type 0}
      → ((a : A) (b : B) → R a b → S a b)
      → (xs : List A) (ys : List B) → Each R xs ys
      → Each S xs ys
  Each-imp f [] [] e = tt
  Each-imp f [] (y ∷ ys) e = elim e [ ]
  Each-imp f (x ∷ xs) [] e = elim e [ ]
  Each-imp f (x ∷ xs) (y ∷ ys) e = (f x y e.0, Each-imp f xs ys e.1)

  pub Each-All :
      {R : A → B → Type 0} {P : A → Type 0} {Q : B → Type 0}
      → ((a : A) (b : B) → P a → R a b → Q b)
      → (xs : List A) (ys : List B) → All P xs
      → Each R xs ys
      → All Q ys
  Each-All f [] [] p e = tt
  Each-All f [] (y ∷ ys) p e = elim e [ ]
  Each-All f (x ∷ xs) [] p e = elim e [ ]
  Each-All f (x ∷ xs) (y ∷ ys) p e = (f x y p.0 e.0, Each-All f xs ys p.1 e.1)

  pub Each-All_right :
      {R : A → B → Type 0} {Q : B → Type 0}
      → ((a : A) (b : B) → R a b → Q b)
      → (xs : List A) (ys : List B) → Each R xs ys
      → All Q ys
  Each-All_right f [] [] e = tt
  Each-All_right f [] (y ∷ ys) e = elim e [ ]
  Each-All_right f (x ∷ xs) [] e = elim e [ ]
  Each-All_right f (x ∷ xs) (y ∷ ys) e = (f x y e.0, Each-All_right f xs ys e.1)

  pub Each-All_left :
      {R : A → B → Type 0} {P : A → Type 0} {Q : B → Type 0}
      → ((a : A) (b : B) → Q b → R a b → P a)
      → (xs : List A) (ys : List B) → All Q ys
      → Each R xs ys
      → All P xs
  Each-All_left f [] [] p e = tt
  Each-All_left f [] (y ∷ ys) p e = elim e [ ]
  Each-All_left f (x ∷ xs) [] p e = elim e [ ]
  Each-All_left f (x ∷ xs) (y ∷ ys) p e = (f x y p.0 e.0, Each-All_left f xs ys p.1 e.1)

  pub Each-Any :
      {R : A → B → Type 0} {P : A → Type 0} {Q : B → Type 0}
      → ((a : A) (b : B) → P a → R a b → Q b)
      → (xs : List A) (ys : List B) → Any P xs
      → Each R xs ys
      → Any Q ys
  Each-Any f [] ys p e = elim p [ ]
  Each-Any f (x ∷ xs) [] p e = elim e [ ]
  Each-Any f (x ∷ xs) (y ∷ ys) (inl p) e = inl (f x y p e.0)
  Each-Any f (x ∷ xs) (y ∷ ys) (inr p) e = inr (Each-Any f xs ys p e.1)

module _ {ℓ} {A : Type ℓ} {B : Type 0} where
  -- The values of a comprehension are those of the calls, in their order.
  pub traverse-Each :
      (f : A → Result B) (xs : List A) (ys : List B)
      → traverse f xs ≡ ok ys
      → Each (λ a b. f a ≡ ok b) xs ys
  traverse-Each f [] [] e = tt
  traverse-Each f [] (y ∷ ys) e = cc
  traverse-Each f (x ∷ xs) ys e =
      let (y, fy, rest) = >>=-eq-ok (f x) (λ y. traverse f xs >>= λ ys. ok (y ∷ ys)) e in
      let (zs, tz, last) = >>=-eq-ok (traverse f xs) (λ ys. ok (y ∷ ys)) rest in
      let same : y ∷ zs ≡ ys = cc in
      subst (Each (λ a b. f a ≡ ok b) (x ∷ xs)) same (fy, traverse-Each f xs zs tz)

  pub traverse-Returns :
      (f : A → Result B) (xs : List A) → All (λ a. Returns (f a)) xs → Returns (traverse f xs)
  traverse-Returns f [] h = ([], refl)
  traverse-Returns f (x ∷ xs) h =
      let (y, e) = h.0 in let (ys, es) = traverse-Returns f xs h.1 in (y ∷ ys, rw (e, es))

-- A comprehension returns where each call does, and keeps what holds of their values.
pub traverse-All {ℓ κ μ} :
    {A : Type ℓ} {B : Type κ} (P : B → Type μ) (f : A → Result B) (xs : List A)
    → All (λ a. (b : B) × (f a ≡ ok b) × P b) xs
    → (ys : List B) × (traverse f xs ≡ ok ys) × All P ys
traverse-All P f [] h = ([], refl, tt)
traverse-All P f (x ∷ xs) h =
    let (y, e, p) = h.0 in
    let (ys, es, ps) = traverse-All P f xs h.1 in (y ∷ ys, rw (e, es) refl, (p, ps))

pub Returns-map {ℓ κ} :
    {A : Type ℓ} {B : Type κ} (m : Result A) (k : A → B) → Returns m → Returns (m >>= λ a. ok (k a))
Returns-map m k r = let (a, e) = r in (k a, rw e)

pub Ensures-bind {ℓ κ} :
    {A : Type ℓ} {B : Type κ} (P : A → Type 0) (Q : B → Type 0) (m : Result A) (k : A → Result B)
    → Ensures P m
    → ((a : A) → P a → Ensures Q (k a))
    → Ensures Q (m >>= k)
Ensures-bind P Q (ok a) k h f = f a h
Ensures-bind P Q (raise e) k h f = tt

-- The rest of a chain, where nothing is known of the value before it.
pub Ensures-then {ℓ κ} :
    {A : Type ℓ} {B : Type κ} (Q : B → Type 0) (m : Result A) (k : A → Result B)
    → ((a : A) → Ensures Q (k a))
    → Ensures Q (m >>= k)
Ensures-then Q (ok a) k f = f a
Ensures-then Q (raise e) k f = tt

pub Ensures-ok : {A : Type 0} (P : A → Type 0) (m : Result A) (a : A) → Ensures P m → m ≡ ok a → P a
Ensures-ok P m a h e = subst (Ensures P) e h

-- The first exception of a call on each element, and the result where there is none.
abbrev pub error_or : Option Error → Option Error → Option Error
error_or (some e) later = some e
error_or none later = later

abbrev pub first_error {ℓ} : {A : Type ℓ} → (A → Option Error) → List A → Option Error
first_error check [] = none
first_error check (x ∷ xs) = error_or (check x) (first_error check xs)

abbrev pub unless_error {ℓ} : {A : Type ℓ} → Option Error → A → Result A
unless_error none a = ok a
unless_error (some e) a = raise e

pub first_error-none {ℓ} :
    {A : Type ℓ} (check : A → Option Error) (xs : List A)
    → All (λ x. check x ≡ none) xs
    → first_error check xs ≡ none
first_error-none check [] h = refl
first_error-none check (x ∷ xs) h = rw (h.0, first_error-none check xs h.1) refl

pub Ensures-unless_error {ℓ} :
    {A : Type ℓ} (P : A → Type 0) (e : Option Error) (a : A) → P a → Ensures P (unless_error e a)
Ensures-unless_error P none a h = h
Ensures-unless_error P (some e) a h = tt
