-- ===== src/LoadTest/Metrics.antt =====
-- cmd/loadtest/metrics.go: how many calls there were, and how long they took.
pub mod Order
use gojobs.Prelude.{
  ℕ, zero, suc, ◌+◌, ◌-◌, ◌*◌, ◌≤◌, ◌≡◌, Bool, true, false, List, [], ◌∷◌, ◌++◌, length, ltb, leb,
  if◌then◌else◌,
}
use gojobs.Prelude.Run.{Run, ok, panic, ◌>>=◌}
use gojobs.Clock.{second}

-- A quotient that the program keeps as a float64, before it is rounded.
pub record Ratio : Type 0 where
  pub over : ℕ
  pub under : ℕ

pub record OpMetrics : Type 0 where
  pub samples : ℕ
  pub throughput : Ratio
  pub p50 : ℕ
  pub p95 : ℕ
  pub p99 : ℕ

-- append(all, s...) for each goroutine
unfoldable pub flatten : List (List ℕ) → List ℕ
flatten [] = []
flatten (s ∷ ss) = s ++ flatten ss

unfoldable pub insert_sample : ℕ → List ℕ → List ℕ
insert_sample x [] = x ∷ []
insert_sample x (y ∷ ys) = let rest = insert_sample x ys in if ltb y x then y ∷ rest else x ∷ y ∷ ys

-- sort.Slice: samples that compare equal are equal, so the order it leaves is fixed.
unfoldable pub sort_samples : List ℕ → List ℕ
unfolding insert_sample
sort_samples [] = []
sort_samples (x ∷ xs) = insert_sample x (sort_samples xs)

-- xs[i], which panics out of range
abbrev pub index : List ℕ → ℕ → Run ℕ
index [] i = panic
index (x ∷ xs) zero = ok x
index (x ∷ xs) (suc i) = index xs i

-- The rank is at least 1 and at most the length.
abbrev pub clamp : ℕ → ℕ → ℕ
clamp rank n = let low = if ltb rank 1 then 1 else rank in if ltb n low then n else low

-- `ceil_share n` is what int(math.Ceil(p * float64(n))) is.
unfoldable pub percentile : (ℕ → ℕ) → List ℕ → Run ℕ
percentile ceil_share [] = ok 0
percentile ceil_share (x ∷ xs) =
    index (x ∷ xs) (clamp (ceil_share (length (x ∷ xs))) (length (x ∷ xs)) - 1)

-- The shares of 0.50, 0.95 and 0.99.
pub record Shares : Type 0 where
  pub half : ℕ → ℕ
  pub most : ℕ → ℕ
  pub nearly_all : ℕ → ℕ

-- Calls per second over a window of nanoseconds.
abbrev pub rate : ℕ → ℕ → Ratio
rate n window =
    if ltb 0 window
    then record { over = n * second; under = window }
    else record { over = 0; under = 1 }

unfoldable pub summarize : Shares → List (List ℕ) → ℕ → Run OpMetrics
unfolding flatten sort_samples percentile
summarize shares per_goroutine window =
    let all = sort_samples (flatten per_goroutine) in
    (do
      p50 ← percentile shares.half all
      p95 ← percentile shares.most all
      p99 ← percentile shares.nearly_all all
      ok (record {
        samples = length all;
        throughput = rate (length all) window;
        p50 = p50;
        p95 = p95;
        p99 = p99;
      }))
