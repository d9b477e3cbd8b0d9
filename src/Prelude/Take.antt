-- ===== src/Prelude/Take.antt =====
-- The first elements of a list.
use Prim.Native.Nat.{ℕ, zero, suc, ◌+◌, ◌-◌, ◌≤◌, min}
use mathlib.Core.Path.{◌≡◌, refl, sym, ap, ◌∙◌}
use mathlib.Core.List.{List, [], ◌∷◌, ◌++◌}
use native.Mathlib.Omega.{arith}
use gojobs.Prelude.Lists.{length, take}

module _ {ℓ} {A : Type ℓ} where
  take_eq : (m n : ℕ) (xs : List A) → m ≡ n → take m xs ≡ take n xs
  take_eq m n xs e = ap (λ k. take k xs) e

  pub take-nil : (n : ℕ) → take {A = A} n [] ≡ []
  take-nil zero = refl
  take-nil (suc n) = refl

  pub take-all : (n : ℕ) (xs : List A) → length xs ≤ n → take n xs ≡ xs
  take-all n [] h = take-nil n
  take-all zero (x ∷ xs) h = absurd (omega arith)
  take-all (suc n) (x ∷ xs) h = ap (◌∷◌ x) (take-all n xs (omega arith))

  pub take-append_left : (n : ℕ) (xs ys : List A) → n ≤ length xs → take n (xs ++ ys) ≡ take n xs
  take-append_left zero xs ys h = refl
  take-append_left (suc n) [] ys h = absurd (omega arith)
  take-append_left (suc n) (x ∷ xs) ys h = ap (◌∷◌ x) (take-append_left n xs ys (omega arith))

  pub take-append_add : (xs ys : List A) (n : ℕ) → take (length xs + n) (xs ++ ys) ≡ xs ++ take n ys
  take-append_add [] ys n = take_eq (0 + n) n ys (omega arith)
  take-append_add (x ∷ xs) ys n =
      take_eq (suc (length xs) + n) (suc (length xs + n)) (x ∷ xs ++ ys) (omega arith)
      ∙ ap (◌∷◌ x) (take-append_add xs ys n)

  pub take-append_right :
      (n : ℕ) (xs ys : List A) → length xs ≤ n → take n (xs ++ ys) ≡ xs ++ take (n - length xs) ys
  take-append_right n xs ys h =
      take_eq n (length xs + (n - length xs)) (xs ++ ys) (omega arith)
      ∙ take-append_add xs ys (n - length xs)

  pub take-take : (m n : ℕ) (xs : List A) → take m (take n xs) ≡ take (min m n) xs
  take-take zero n xs = take_eq 0 (min 0 n) xs (omega arith)
  take-take (suc m) zero xs = take_eq 0 (min (suc m) 0) xs (omega arith)
  take-take (suc m) (suc n) [] = sym (take-nil (min (suc m) (suc n)))
  take-take (suc m) (suc n) (x ∷ xs) =
      ap (◌∷◌ x) (take-take m n xs)
      ∙ take_eq (suc (min m n)) (min (suc m) (suc n)) (x ∷ xs) (omega arith)

  pub take-append_min : (n : ℕ) (xs ys : List A) → take (min n (length xs)) (xs ++ ys) ≡ take n xs
  take-append_min n xs ys =
      take-append_left (min n (length xs)) xs ys (omega arith)
      ∙ sym (take-take n (length xs) xs)
      ∙ ap (take n) (take-all (length xs) xs (omega arith))
