-- ===== src/Prelude/Outcome.antt =====
-- `Result<T, E>`: a value or an error, chained by `?`.
use mathlib.Core.Path.{◌≡◌, refl}
use mathlib.Core.Logic.{◌⊎◌, inl, inr}
use mathlib.Core.Option.{Option, none, some}

pub data Result {ℓ} (Failure : Type ℓ) (Value : Type ℓ) : Type ℓ where
  ok : Value → Result Failure Value
  err : Failure → Result Failure Value

module _ {ℓ} {Failure Value Next : Type ℓ} where
  infixl 5 ◌>>=◌
  abbrev pub ◌>>=◌ : Result Failure Value → (Value → Result Failure Next) → Result Failure Next
  err failure >>= continue = err failure
  ok value >>= continue = continue value

  -- A chain that went well, taken apart: the value in the middle, and both halves.
  pub record Chained (first : Result Failure Value) (continue : Value → Result Failure Next)
      (last : Next) : Type ℓ where
    pub value : Value
    pub first_is : first ≡ ok value
    pub then_is : continue value ≡ ok last

  pub unchain :
      (first : Result Failure Value) (continue : Value → Result Failure Next) {last : Next}
      → (first >>= continue) ≡ ok last
      → Chained first continue last
  unchain (err failure) continue h = absurd (cc h)
  unchain (ok value) continue h = record { value = value; first_is = refl; then_is = h }

pub Result-cases {ℓ} :
    {E A : Type ℓ} (r : Result E A) → ((a : A) × (r ≡ ok a)) ⊎ ((e : E) × (r ≡ err e))
Result-cases (ok a) = inl (a, refl)
Result-cases (err e) = inr (e, refl)

-- `ok_or(e)?` and `map_err(|_| e)?`
abbrev pub ok_or {ℓ} : {E A : Type ℓ} → Option A → E → Result E A
ok_or none e = err e
ok_or (some a) e = ok a
