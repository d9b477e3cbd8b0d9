-- ===== src/Record/Read.antt =====
-- `readN`, through which every decoder reads.
use gojobs.Prelude.{
  ℕ, ◌+◌, ◌-◌, ◌≡◌, refl, sym, ap, ◌∙◌, List, ◌++◌, length, take, drop, take-append, drop-append,
  drop-length_add, length-append, append-nil, [], arith, leb, if◌then◌else◌, ◌&&◌,
}
use gojobs.Prelude.Run.{Run, ok, err, panic, short_read, ◌>>=◌, Returns}

-- b[lo:hi]
unfoldable pub slice : List ℕ → ℕ → ℕ → Run (List ℕ)
slice b lo hi = if leb lo hi && leb hi (length b) then ok (take (hi - lo) (drop lo b)) else panic

-- `n` is a length or a 32-bit prefix, so it is never negative, and `pos + n` does not overflow.
unfoldable pub read_n : List ℕ → ℕ → ℕ → Run (List ℕ × ℕ)
unfolding slice
read_n b pos n =
    if leb (pos + n) (length b)
    then (do s ← slice b pos (pos + n); ok (s, pos + n))
    else err short_read

-- At offset `pos` of `b` the bytes `rest` are still to be read.
pub record AtRest (b : List ℕ) (pos : ℕ) (rest : List ℕ) : Type 0 where
  pub bound : pos + length rest ≡ length b
  pub bytes : drop pos b ≡ rest

pub AtRest-start : (b : List ℕ) → AtRest b 0 b
AtRest-start b = record { bound = omega arith; bytes = drop_zero b }
  where
    drop_zero : (xs : List ℕ) → drop 0 xs ≡ xs
    drop_zero xs = λ i. xs

pub read_n-Returns : (b : List ℕ) (pos n : ℕ) → Returns (read_n b pos n)
unfolding read_n
read_n-Returns b pos n = ground arith

module _ {b : List ℕ} {pos : ℕ} where
  AtRest-field :
      (field rest : List ℕ) → AtRest b pos (field ++ rest) → AtRest b (pos + length field) rest
  AtRest-field field rest at = record {
    bound = omega (arith, at.bound, length-append field rest);
    bytes =
        sym (drop-length_add pos (length field) b)
        ∙ ap (drop (length field)) at.bytes
        ∙ drop-append field rest;
  }

  read_n-field :
      (field rest : List ℕ)
      → AtRest b pos (field ++ rest)
      → read_n b pos (length field) ≡ ok (field, pos + length field)
  unfolding read_n
  read_n-field field rest at = ground (arith, at.bound, length-append field rest, taken)
    where
      width : pos + length field - pos ≡ length field
      width = omega arith

      taken : take (pos + length field - pos) (drop pos b) ≡ field
      taken = rw (width, at.bytes, take-append) refl

  -- What the bytes show is what is read, and the rest is what follows.
  pub read_step :
      (field rest : List ℕ) (n : ℕ)
      → length field ≡ n
      → AtRest b pos (field ++ rest)
      → (read_n b pos n ≡ ok (field, pos + n)) × AtRest b (pos + n) rest
  read_step field rest n e at = rw (← e) (read_n-field field rest at, AtRest-field field rest at)

  -- The last field of a body.
  pub read_last :
      (field : List ℕ) (n : ℕ)
      → length field ≡ n
      → AtRest b pos field
      → read_n b pos n ≡ ok (field, pos + n)
  read_last field n e at = (read_step field [] n e (rw append-nil at)).0
