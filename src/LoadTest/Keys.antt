-- ===== src/LoadTest/Keys.antt =====
-- The idempotency keys of the producers (cmd/loadtest/workload.go: startProducers).
use gojobs.Prelude.{
  ℕ, zero, suc, ◌+◌, ◌-◌, ◌*◌, ◌/◌, ◌%◌, ◌<◌, ◌≡◌, ◌≢◌, refl, sym, ap, ◌∙◌, Bool, true, false, List,
  [], ◌∷◌, ◌++◌, arith, ltb,
}

-- %d: the last digit, and what is written before it. Each digit takes a round.
unfoldable pub decimal_loop : ℕ → ℕ → List ℕ → List ℕ
decimal_loop zero n written = written
decimal_loop (suc fuel) n written = elim (ltb n 10) [
  | true ↦ (48 + n) ∷ written
  | false ↦ decimal_loop fuel (n / 10) ((48 + n % 10) ∷ written)
]

unfoldable pub decimal : ℕ → List ℕ
unfolding decimal_loop
decimal n = decimal_loop (n + 1) n []

-- fmt.Sprintf("p%d-%d", id, seq)
unfoldable pub producer_key : ℕ → ℕ → List ℕ
unfolding decimal
producer_key id seq = 112 ∷ decimal id ++ 45 ∷ decimal seq

-- The number that digits say, behind those that were read.
value : ℕ → List ℕ → ℕ
value n [] = n
value n (c ∷ cs) = value (10 * n + (c - 48)) cs

decimal_loop-value :
    (fuel n : ℕ) (written : List ℕ)
    → n < fuel
    → value 0 (decimal_loop fuel n written) ≡ value n written
unfolding decimal_loop value
decimal_loop-value zero n written h = absurd (omega arith)
decimal_loop-value (suc fuel) n written h =
    by_size (ltb n 10) refl (decimal_loop-value fuel (n / 10) ((48 + n % 10) ∷ written))
  where
    by_size :
        (b : Bool)
        → ltb n 10 ≡ b
        → (n / 10 < fuel
            → value 0 (decimal_loop fuel (n / 10) ((48 + n % 10) ∷ written))
              ≡ value (n / 10) ((48 + n % 10) ∷ written))
        → value 0 (elim b [
          | true ↦ (48 + n) ∷ written
          | false ↦ decimal_loop fuel (n / 10) ((48 + n % 10) ∷ written)
        ])
          ≡ value n written
    by_size true e rest = ap (λ m. value m written) (omega arith)
    by_size false e rest = rest (ground arith) ∙ ap (λ m. value m written) (omega arith)

-- Digits only.
abbrev NoDash : List ℕ → Type 0
NoDash [] = Unit
NoDash (c ∷ cs) = (c ≢ 45) × NoDash cs

decimal_loop-NoDash :
    (fuel n : ℕ) (written : List ℕ) → NoDash written → NoDash (decimal_loop fuel n written)
unfolding decimal_loop
decimal_loop-NoDash zero n written h = h
decimal_loop-NoDash (suc fuel) n written h =
    ground (arith, decimal_loop-NoDash fuel (n / 10) ((48 + n % 10) ∷ written))

split_dash :
    (xs xs' ys ys' : List ℕ)
    → NoDash xs
    → NoDash xs'
    → (xs ++ 45 ∷ ys) ≡ (xs' ++ 45 ∷ ys')
    → (xs ≡ xs') × (ys ≡ ys')
split_dash [] [] ys ys' h h' e = (refl, cc)
split_dash [] (x ∷ xs') ys ys' h h' e = grind (arith, h'.0, e)
split_dash (x ∷ xs) [] ys ys' h h' e = grind (arith, h.0, e)
split_dash (x ∷ xs) (x' ∷ xs') ys ys' h h' e =
    let (p, r) = split_dash xs xs' ys ys' h.1 h'.1 cc in let same : x ≡ x' = cc in (cc, r)

decimal-injective : (m n : ℕ) → decimal m ≡ decimal n → m ≡ n
unfolding decimal value
decimal-injective m n e =
    sym (decimal_loop-value (m + 1) m [] (omega arith))
    ∙ ap (value 0) e
    ∙ decimal_loop-value (n + 1) n [] (omega arith)

-- Two producers, or two rounds of one, never share a key.
pub producer_key-injective :
    (id seq id' seq' : ℕ) → producer_key id seq ≡ producer_key id' seq' → (id ≡ id') × (seq ≡ seq')
unfolding producer_key decimal
producer_key-injective id seq id' seq' e =
    let (p, r) =
      split_dash (decimal id) (decimal id') (decimal seq) (decimal seq')
        (decimal_loop-NoDash (id + 1) id [] tt) (decimal_loop-NoDash (id' + 1) id' [] tt) cc in
    (decimal-injective id id' p, decimal-injective seq seq' r)
