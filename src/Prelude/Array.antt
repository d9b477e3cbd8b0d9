-- ===== src/Prelude/Array.antt =====
-- Lists as arrays. A read out of range gives the default, and a write out of range does nothing.
use Prim.Native.Nat.{ℕ, zero, suc, ◌+◌, ◌<◌}
use mathlib.Core.Path.{◌≡◌, refl, ap}
use mathlib.Core.Bool.{Bool, true, false}
use mathlib.Core.List.{List, [], ◌∷◌, ◌++◌}
use native.Mathlib.Omega.{arith}
use gojobs.Prelude.Lists.{length}
use gojobs.Prelude.Tests.{◌==◌, if◌then◌else◌}

module _ {ℓ} {A : Type ℓ} where
  abbrev pub get_or : List A → ℕ → A → A
  get_or [] i default = default
  get_or (x ∷ xs) zero default = x
  get_or (x ∷ xs) (suc i) default = get_or xs i default

  abbrev pub set : List A → ℕ → A → List A
  set [] i v = []
  set (x ∷ xs) zero v = v ∷ xs
  set (x ∷ xs) (suc i) v = x ∷ set xs i v

  pub length-set : (xs : List A) (i : ℕ) (v : A) → length (set xs i v) ≡ length xs
  length-set [] i v = refl
  length-set (x ∷ xs) zero v = refl
  length-set (x ∷ xs) (suc i) v = ap suc (length-set xs i v)

  pub get_or-set :
      (xs : List A) (i j : ℕ) (v default : A)
      → i < length xs
      → get_or (set xs i v) j default ≡ (if i == j then v else get_or xs j default)
  get_or-set [] i j v default h = absurd (omega arith)
  get_or-set (x ∷ xs) zero zero v default h = refl
  get_or-set (x ∷ xs) zero (suc j) v default h = ground arith
  get_or-set (x ∷ xs) (suc i) zero v default h = ground arith
  get_or-set (x ∷ xs) (suc i) (suc j) v default h = ground (arith, get_or-set xs i j v default)

abbrev one_if : Bool → ℕ
one_if true = 1
one_if false = 0

-- How often a number occurs.
abbrev pub times : ℕ → List ℕ → ℕ
times n [] = 0
times n (x ∷ xs) = times n xs + one_if (x == n)

-- Each number occurs as often in both lists.
abbrev pub SameItems : List ℕ → List ℕ → Type 0
SameItems old new = (n : ℕ) → times n new ≡ times n old

pub times-append : (n : ℕ) (xs ys : List ℕ) → times n (xs ++ ys) ≡ times n xs + times n ys
times-append n [] ys = omega arith
times-append n (x ∷ xs) ys = omega (arith, times-append n xs ys)

-- A write trades the old item for the new one.
pub times-set :
    (n : ℕ) (xs : List ℕ) (i v : ℕ)
    → i < length xs
    → times n (set xs i v) + one_if (get_or xs i 0 == n) ≡ times n xs + one_if (v == n)
times-set n [] i v h = absurd (omega arith)
times-set n (x ∷ xs) zero v h = omega arith
times-set n (x ∷ xs) (suc i) v h = omega (arith, times-set n xs i v)
