-- ===== src/Base/Results.antt =====
-- Fallible code: a result with the error on the left, and its `do` notation.
use mathlib.Core.Path.{◌≡◌, refl}
use mathlib.Core.Bool.{Bool, true, false}
use mathlib.Core.Option.{Option, none, some}
use mathlib.Core.Logic.{◌⊎◌, inl, inr}

pub data Result {ℓ} (E : Type 0) (A : Type ℓ) : Type ℓ where
  ok : (value : A) → Result E A
  err : (error : E) → Result E A

module _ {ℓ κ} {E : Type 0} {A : Type ℓ} {B : Type κ} where
  infixl 5 ◌>>=◌
  -- `?` on a result: an error is passed on, a value goes to the rest of the function.
  abbrev pub ◌>>=◌ : Result E A → (A → Result E B) → Result E B
  err failure >>= rest = err failure
  ok value >>= rest = rest value

module _ {κ} {E : Type 0} {B : Type κ} where
  infixl 5 ◌>>◌
  -- The same for a step that is run for its error alone.
  abbrev pub ◌>>◌ : Result E (Unit {0}) → Result E B → Result E B
  step >> rest = step >>= λ done. rest

-- `ok_or`: a missing value becomes the given error.
abbrev pub ok_or {ℓ} : {E : Type 0} {A : Type ℓ} → Option A → E → Result E A
ok_or none e = err e
ok_or (some a) e = ok a

abbrev pub guard : {E : Type 0} → (holds : Bool) → E → Result E (Unit {0})
guard false failure = err failure
guard true failure = ok tt

pub Result-cases {ℓ} :
    {E : Type 0} {A : Type ℓ} (r : Result E A) → ((a : A) × (r ≡ ok a)) ⊎ ((e : E) × (r ≡ err e))
Result-cases (ok a) = inl (a, refl)
Result-cases (err e) = inr (e, refl)

-- Inversions of a successful step, for proofs that keep the parts shut.
module _ {ℓ κ} {E : Type 0} {A : Type ℓ} {B : Type κ} where
  pub >>=-eq-ok :
      (step : Result E A) (rest : A → Result E B) {value : B}
      → (step >>= rest) ≡ ok value
      → (between : A) × (step ≡ ok between) × (rest between ≡ ok value)
  >>=-eq-ok (err failure) rest h = cc
  >>=-eq-ok (ok between) rest h = (between, refl, h)

pub guard-eq-ok {ℓ} :
    {E : Type 0} {B : Type ℓ} (t : Bool) (e : E) (k : Result E B) {b : B}
    → (guard t e >> k) ≡ ok b
    → (t ≡ true) × (k ≡ ok b)
guard-eq-ok true e k h = (refl, h)
guard-eq-ok false e k h = cc

pub ok_or-eq-ok {ℓ} :
    {E : Type 0} {A : Type ℓ} (o : Option A) (e : E) {a : A} → ok_or o e ≡ ok a → o ≡ some a
ok_or-eq-ok none e h = cc
ok_or-eq-ok (some a) e h = cc

pub ok-injective {ℓ} :
    {E : Type 0} {A : Type ℓ} {a b : A} → ◌≡◌ {A = Result E A} (ok a) (ok b) → a ≡ b
ok-injective h = cc
