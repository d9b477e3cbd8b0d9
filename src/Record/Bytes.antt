-- ===== src/Record/Bytes.antt =====
-- `encoding/binary` in big-endian order, as record.go and wal.go use it.
use gojobs.Prelude.{
  ℕ, zero, suc, ◌+◌, ◌*◌, ◌/◌, ◌%◌, ◌^◌, ◌<◌, ◌≡◌, refl, ◌∙◌, List, [], ◌∷◌, ◌++◌, length,
  length-append, arith,
}
use native.Mathlib.Nat.{pow-suc}

-- The `n` bytes of `v`, highest first.
unfoldable pub put_be : ℕ → ℕ → List ℕ
put_be zero v = []
put_be (suc n) v = put_be n (v / 256) ++ v % 256 ∷ []

get_be_loop : ℕ → List ℕ → ℕ
get_be_loop acc [] = acc
get_be_loop acc (b ∷ bs) = get_be_loop (acc * 256 + b) bs

unfoldable pub get_be : List ℕ → ℕ
unfolding get_be_loop
get_be bs = get_be_loop 0 bs

pub length-put_be : (n v : ℕ) → length (put_be n v) ≡ n
unfolding put_be
length-put_be zero v = refl
length-put_be (suc n) v =
    omega (arith, length-append (put_be n (v / 256)) (v % 256 ∷ []), length-put_be n (v / 256))

get_be_loop-append :
    (acc : ℕ) (bs : List ℕ) (b : ℕ) → get_be_loop acc (bs ++ b ∷ []) ≡ get_be_loop acc bs * 256 + b
unfolding get_be_loop
get_be_loop-append acc [] b = refl
get_be_loop-append acc (c ∷ bs) b = get_be_loop-append (acc * 256 + c) bs b

pub get_be-put_be : (n v : ℕ) → v < 256 ^ n → get_be (put_be n v) ≡ v
unfolding get_be put_be
get_be-put_be zero v h = omega arith
get_be-put_be (suc n) v h =
    get_be_loop-append 0 (put_be n (v / 256)) (v % 256)
    ∙ omega (arith, get_be-put_be n (v / 256) (omega (arith, pow-suc 256 n)))
