-- ===== src/Prelude/Run.antt =====
-- How a call ends: it returns, it returns an error, it panics, or the model's fuel is used up.
use mathlib.Core.Path.{◌≡◌, refl}

pub data Error : Type 0 where
  short_read bad_uuid empty_body unknown_op : Error
  eof unexpected_eof corrupt_record io_error : Error
  task_not_found : Error

pub data Run {ℓ} (Value : Type ℓ) : Type ℓ where
  panic : Run Value
  out_of_fuel : Run Value
  ok : (value : Value) → Run Value
  err : (error : Error) → Run Value

infixl 5 ◌>>=◌
-- What stops a call stops the calls behind it too.
abbrev pub ◌>>=◌ {ℓ κ} : {A : Type ℓ} {B : Type κ} → Run A → (A → Run B) → Run B
panic >>= next = panic
out_of_fuel >>= next = out_of_fuel
err error >>= next = err error
ok value >>= next = next value

-- The run returns, with a value or with an error.
abbrev pub Returns {ℓ} : {A : Type ℓ} → Run A → Type 0
Returns (ok a) = Unit
Returns (err e) = Unit
Returns panic = ⊥
Returns out_of_fuel = ⊥

pub >>=-Returns {ℓ κ} :
    {A : Type ℓ} {B : Type κ} (m : Run A) (f : A → Run B)
    → Returns m
    → ((a : A) → m ≡ ok a → Returns (f a))
    → Returns (m >>= f)
>>=-Returns (ok a) f h k = k a refl
>>=-Returns (err e) f h k = tt
>>=-Returns panic f h k = h
>>=-Returns out_of_fuel f h k = h
