-- ===== src/Prelude/Io.antt =====
-- `io::Result`: a value, or one of the error kinds that the program makes or tells apart.
use mathlib.Core.Path.{◌≡◌, refl}
use mathlib.Core.Logic.{◌⊎◌, inl, inr}

pub data IoError : Type 0 where
  would_block interrupted write_zero unexpected_eof invalid_data invalid_input : IoError
  not_found connection_refused addr_in_use other : IoError

pub data Result {ℓ} (A : Type ℓ) : Type ℓ where
  err : IoError → Result A
  ok : A → Result A

infixl 5 ◌>>=◌
abbrev pub ◌>>=◌ {ℓ κ} : {A : Type ℓ} {B : Type κ} → Result A → (A → Result B) → Result B
err kind >>= next = err kind
ok value >>= next = next value

-- To split on a computed result and keep the equation.
pub Result-cases {ℓ} :
    {A : Type ℓ} (r : Result A) → ((a : A) × (r ≡ ok a)) ⊎ ((e : IoError) × (r ≡ err e))
Result-cases (ok a) = inl (a, refl)
Result-cases (err e) = inr (e, refl)
