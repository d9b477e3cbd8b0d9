-- ===== src/LoadTest/Metrics/Order.antt =====
-- What the summary of samples depends on (cmd/loadtest/metrics.go: summarize, percentile).
use gojobs.Prelude.{
  ℕ, zero, suc, ◌-◌, ◌<◌, ◌≤◌, ◌≡◌, refl, ap, ◌∙◌, List, [], ◌∷◌, length, ltb, arith, Bool-cases,
  inl, inr,
}
use gojobs.Prelude.Run.{ok}
use gojobs.Prelude.Array.{get_or, times, SameItems}
use gojobs.LoadTest.Metrics.{
  OpMetrics, rate, flatten, insert_sample, sort_samples, index, clamp, percentile, Shares,
  summarize,
}

abbrev AtLeast : ℕ → List ℕ → Type 0
AtLeast x [] = Unit
AtLeast x (y ∷ ys) = x ≤ y

abbrev pub IsAscending : List ℕ → Type 0
IsAscending [] = Unit
IsAscending (x ∷ xs) = AtLeast x xs × IsAscending xs

insert_sample-AtLeast :
    (low x : ℕ) (xs : List ℕ) → low ≤ x → AtLeast low xs → AtLeast low (insert_sample x xs)
unfolding insert_sample
insert_sample-AtLeast low x [] h k = h
insert_sample-AtLeast low x (y ∷ ys) h k = elim (Bool-cases (ltb y x)) [
  | inl e ↦ rw e k
  | inr e ↦ rw e h
]

insert_sample-IsAscending :
    (x : ℕ) (xs : List ℕ) → IsAscending xs → IsAscending (insert_sample x xs)
unfolding insert_sample
insert_sample-IsAscending x [] h = (tt, tt)
insert_sample-IsAscending x (y ∷ ys) h = elim (Bool-cases (ltb y x)) [
  | inl e ↦
      rw e (insert_sample-AtLeast y x ys (ground arith) h.0, insert_sample-IsAscending x ys h.1)
  | inr e ↦ rw e (ground arith, h)
]

insert_sample-times : (x n : ℕ) (xs : List ℕ) → times n (insert_sample x xs) ≡ times n (x ∷ xs)
unfolding insert_sample
insert_sample-times x n [] = refl
insert_sample-times x n (y ∷ ys) = ground (arith, insert_sample-times x n ys)

pub sort_samples-IsAscending : (xs : List ℕ) → IsAscending (sort_samples xs)
unfolding sort_samples
sort_samples-IsAscending [] = tt
sort_samples-IsAscending (x ∷ xs) =
    insert_sample-IsAscending x (sort_samples xs) (sort_samples-IsAscending xs)

pub sort_samples-times : (n : ℕ) (xs : List ℕ) → times n (sort_samples xs) ≡ times n xs
unfolding sort_samples
sort_samples-times n [] = refl
sort_samples-times n (x ∷ xs) =
    omega (arith, insert_sample-times x n (sort_samples xs), sort_samples-times n xs)

head_least : (x y : ℕ) (ys : List ℕ) → IsAscending (y ∷ ys) → 0 < times x (y ∷ ys) → y ≤ x
head_least x y [] h e = ground arith
head_least x y (z ∷ ys) h e = ground (arith, head_least x z ys h.1)

-- An ascending list is fixed by how often each number occurs.
ascending_unique : (xs ys : List ℕ) → IsAscending xs → IsAscending ys → SameItems xs ys → xs ≡ ys
ascending_unique [] [] h k same = refl
ascending_unique [] (y ∷ ys) h k same = absurd (ground (arith, same y))
ascending_unique (x ∷ xs) [] h k same = absurd (ground (arith, same x))
ascending_unique (x ∷ xs) (y ∷ ys) h k same =
    let low : y ≤ x = head_least x y ys k (ground (arith, same x)) in
    let high : x ≤ y = head_least y x xs h (ground (arith, same y)) in
    let head : x ≡ y = omega arith in
    let rest = ascending_unique xs ys h.1 k.1 (λ n. ground (arith, same n)) in cc

-- The summary does not depend on which goroutine took which sample, nor when: only on how often each
-- latency was sampled.
pub summarize-grouping :
    (shares : Shares) (xs ys : List (List ℕ)) (window : ℕ)
    → SameItems (flatten xs) (flatten ys)
    → summarize shares xs window ≡ summarize shares ys window
unfolding summarize
summarize-grouping shares xs ys window same =
    let sorted : sort_samples (flatten xs) ≡ sort_samples (flatten ys) =
      ascending_unique (sort_samples (flatten xs)) (sort_samples (flatten ys))
        (sort_samples-IsAscending (flatten xs)) (sort_samples-IsAscending (flatten ys))
        (λ n.
          omega (
            arith,
            same n,
            sort_samples-times n (flatten xs),
            sort_samples-times n (flatten ys),
          )) in
    rw sorted refl

index-get_or : (xs : List ℕ) (i : ℕ) → i < length xs → index xs i ≡ ok (get_or xs i 0)
index-get_or [] i h = absurd (omega arith)
index-get_or (x ∷ xs) zero h = refl
index-get_or (x ∷ xs) (suc i) h = index-get_or xs i (omega arith)

-- The place of a percentile in the samples.
abbrev place : (ℕ → ℕ) → List ℕ → ℕ
place ceil_share xs = clamp (ceil_share (length xs)) (length xs) - 1

percentile-get_or :
    (ceil_share : ℕ → ℕ) (xs : List ℕ)
    → percentile ceil_share xs ≡ ok (get_or xs (place ceil_share xs) 0)
unfolding percentile
percentile-get_or ceil_share [] = refl
percentile-get_or ceil_share (x ∷ xs) =
    index-get_or (x ∷ xs) (place ceil_share (x ∷ xs)) (ground arith)

get_or-ascending :
    (xs : List ℕ) (i j : ℕ) → IsAscending xs → i ≤ j → j < length xs → get_or xs i 0 ≤ get_or xs j 0
get_or-ascending [] i j h le inside = absurd (omega arith)
get_or-ascending (x ∷ xs) zero zero h le inside = omega arith
get_or-ascending (x ∷ []) zero (suc j) h le inside = absurd (omega arith)
get_or-ascending (x ∷ y ∷ xs) zero (suc j) h le inside =
    omega (arith, h.0, get_or-ascending (y ∷ xs) zero j h.1 (omega arith) (omega arith))
get_or-ascending (x ∷ xs) (suc i) zero h le inside = absurd (omega arith)
get_or-ascending (x ∷ xs) (suc i) (suc j) h le inside =
    get_or-ascending xs i j h.1 (omega arith) (omega arith)

places_ascending :
    (f g : ℕ → ℕ) (xs : List ℕ)
    → IsAscending xs
    → f (length xs) ≤ g (length xs)
    → get_or xs (place f xs) 0 ≤ get_or xs (place g xs) 0
places_ascending f g [] h le = omega arith
places_ascending f g (x ∷ xs) h le =
    get_or-ascending (x ∷ xs) (place f (x ∷ xs)) (place g (x ∷ xs)) h (ground (arith, le))
      (ground arith)

length-insert_sample : (x : ℕ) (xs : List ℕ) → length (insert_sample x xs) ≡ suc (length xs)
unfolding insert_sample
length-insert_sample x [] = refl
length-insert_sample x (y ∷ ys) = ground (arith, length-insert_sample x ys)

length-sort_samples : (xs : List ℕ) → length (sort_samples xs) ≡ length xs
unfolding sort_samples
length-sort_samples [] = refl
length-sort_samples (x ∷ xs) =
    length-insert_sample x (sort_samples xs) ∙ ap suc (length-sort_samples xs)

-- For shares that grow, as those of 0.50, 0.95 and 0.99 do, the summary never panics; it counts every
-- sample, its three percentiles ascend, and without a sample they are 0.
pub summarize-ascending :
    (shares : Shares) (xs : List (List ℕ)) (window : ℕ)
    → ((n : ℕ) → shares.half n ≤ shares.most n)
    → ((n : ℕ) → shares.most n ≤ shares.nearly_all n)
    → (m : OpMetrics) × (summarize shares xs window ≡ ok m)
      × (m.samples ≡ length (flatten xs))
      × (m.p50 ≤ m.p95)
      × (m.p95 ≤ m.p99)
      × (m.samples ≡ 0 → m.p99 ≡ 0)
unfolding summarize
summarize-ascending shares xs window low high =
    let all = sort_samples (flatten xs) in
    let up = sort_samples-IsAscending (flatten xs) in
    (
      record {
        samples = length all;
        throughput = rate (length all) window;
        p50 = get_or all (place shares.half all) 0;
        p95 = get_or all (place shares.most all) 0;
        p99 = get_or all (place shares.nearly_all all) 0;
      },
      rw
          (
            percentile-get_or shares.half all,
            percentile-get_or shares.most all,
            percentile-get_or shares.nearly_all all,
          )
          refl,
      length-sort_samples (flatten xs),
      places_ascending shares.half shares.most all up (low (length all)),
      places_ascending shares.most shares.nearly_all all up (high (length all)),
      none_zero all (place shares.nearly_all all),
    )
  where
    none_zero : (l : List ℕ) (i : ℕ) → length l ≡ 0 → get_or l i 0 ≡ 0
    none_zero [] i e = refl
    none_zero (x ∷ l) i e = absurd (omega arith)
