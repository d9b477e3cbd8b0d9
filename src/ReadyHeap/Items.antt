-- ===== src/ReadyHeap/Items.antt =====
-- The heap operations lose no task and add none (internal/queue/heap.go and container/heap).
use gojobs.Prelude.{
  ℕ, zero, suc, ◌+◌, ◌-◌, ◌*◌, ◌/◌, ◌<◌, ◌≤◌, ◌≡◌, refl, ap, sym, ◌∙◌, Bool, true, false, not, ◌||◌,
  List, [], ◌∷◌, ◌++◌, length, take, ◌==◌, leb, arith, if◌then◌else◌, length-append,
}
use gojobs.Prelude.Array.{
  get_or, set, length-set, get_or-set, SameItems, times, times-set, times-append,
}
use gojobs.Task.{Task}
use gojobs.ReadyHeap.{swap, less, up, down, child, heap_push, heap_pop, init_loop, heap_init}

pub length-swap : (h : List ℕ) (i j : ℕ) → length (swap h i j) ≡ length h
unfolding swap
length-swap h i j =
    length-set (set h i (get_or h j 0)) j (get_or h i 0) ∙ length-set h i (get_or h j 0)

pub get_or-swap :
    (h : List ℕ) (i j k : ℕ)
    → i < length h
    → j < length h
    → get_or (swap h i j) k 0
      ≡ (if j == k then get_or h i 0 else if i == k then get_or h j 0 else get_or h k 0)
unfolding swap
get_or-swap h i j k hi hj =
    get_or-set (set h i (get_or h j 0)) j k (get_or h i 0) 0
      (omega (arith, length-set h i (get_or h j 0)))
    ∙ ap (λ x. if j == k then get_or h i 0 else x) (get_or-set h i k (get_or h j 0) 0 hi)

pub swap-SameItems : (h : List ℕ) (i j : ℕ) → i < length h → j < length h → SameItems h (swap h i j)
unfolding swap
swap-SameItems h i j hi hj n =
    let first = times-set n h i (get_or h j 0) hi in
    let second =
      times-set n (set h i (get_or h j 0)) j (get_or h i 0)
        (omega (arith, length-set h i (get_or h j 0))) in
    let old = get_or-set h i j (get_or h j 0) 0 hi in ground (arith, first, second, old)

pub child-lt :
    (cell : ℕ → Task) (h : List ℕ) (i n : ℕ) → leb n (2 * i + 1) ≡ false → child cell h i n < n
unfolding child
child-lt cell h i n e = ground arith

-- Whatever holds on both ways out of a round holds behind it.
settle {ℓ} :
    (P : List ℕ → Type ℓ) (b : Bool) (stop more : List ℕ)
    → (b ≡ true → P stop)
    → (b ≡ false → P more)
    → P (elim b [ true ↦ stop | false ↦ more ])
settle P true stop more f g = f refl
settle P false stop more f g = g refl

module _ (cell : ℕ → Task) (fuel : ℕ) (h : List ℕ) where
  pub up-cases {ℓ} :
      (P : List ℕ → Type ℓ) (j : ℕ)
      → ((j - 1) / 2 == j || not (less cell h j ((j - 1) / 2)) ≡ true → P h)
      → ((j - 1) / 2 == j || not (less cell h j ((j - 1) / 2)) ≡ false
          → P (up cell fuel (swap h ((j - 1) / 2) j) ((j - 1) / 2)))
      → P (up cell (suc fuel) h j)
  unfolding up
  up-cases P j stop more = settle P _ h _ stop more

  pub down-cases {ℓ} :
      (P : List ℕ → Type ℓ) (i n : ℕ)
      → (leb n (2 * i + 1) || not (less cell h (child cell h i n) i) ≡ true → P h)
      → (leb n (2 * i + 1) || not (less cell h (child cell h i n) i) ≡ false
          → P (down cell fuel (swap h i (child cell h i n)) (child cell h i n) n))
      → P (down cell (suc fuel) h i n)
  unfolding down
  down-cases P i n stop more = settle P _ h _ stop more

module _ (cell : ℕ → Task) where
  pub length-up : (fuel : ℕ) (h : List ℕ) (j : ℕ) → length (up cell fuel h j) ≡ length h
  length-up zero h j = unfold up in refl
  length-up (suc fuel) h j =
      up-cases cell fuel h (λ r. length r ≡ length h) j (λ _. refl)
        λ _. length-up fuel (swap h ((j - 1) / 2) j) ((j - 1) / 2) ∙ length-swap h ((j - 1) / 2) j

  pub length-down : (fuel : ℕ) (h : List ℕ) (i n : ℕ) → length (down cell fuel h i n) ≡ length h
  length-down zero h i n = unfold down in refl
  length-down (suc fuel) h i n =
      let c = child cell h i n in
      down-cases cell fuel h (λ r. length r ≡ length h) i n (λ _. refl)
        λ _. length-down fuel (swap h i c) c n ∙ length-swap h i c

  pub up-SameItems : (fuel : ℕ) (h : List ℕ) (j : ℕ) → j < length h → SameItems h (up cell fuel h j)
  up-SameItems zero h j hj = unfold up in λ n. refl
  up-SameItems (suc fuel) h j hj =
      let i = (j - 1) / 2 in
      up-cases cell fuel h (SameItems h) j (λ _ n. refl)
        λ _ n.
          up-SameItems fuel (swap h i j) i (omega (arith, length-swap h i j)) n
          ∙ swap-SameItems h i j (omega arith) hj n

  pub down-SameItems :
      (fuel : ℕ) (h : List ℕ) (i n : ℕ)
      → i < length h
      → n ≤ length h
      → SameItems h (down cell fuel h i n)
  down-SameItems zero h i n hi hn = unfold down in λ m. refl
  down-SameItems (suc fuel) h i n hi hn =
      let c = child cell h i n in
      down-cases cell fuel h (SameItems h) i n (λ _ m. refl)
        λ more m.
          let inside : c < n = child-lt cell h i n (ground arith) in
          down-SameItems fuel (swap h i c) c n (omega (arith, length-swap h i c))
            (omega (arith, length-swap h i c)) m
          ∙ swap-SameItems h i c hi (omega arith) m

  pub heap_push-SameItems : (h : List ℕ) (x : ℕ) → SameItems (x ∷ h) (heap_push cell h x)
  unfolding heap_push
  heap_push-SameItems h x n =
      up-SameItems (length h + 1) (h ++ x ∷ []) (length h) (omega (arith, length-append h (x ∷ [])))
        n
      ∙ omega (arith, times-append n h (x ∷ []))

  pub init_loop-SameItems : (k : ℕ) (h : List ℕ) → k ≤ length h → SameItems h (init_loop cell k h)
  unfolding init_loop
  init_loop-SameItems zero h hk n = refl
  init_loop-SameItems (suc i) h hk n =
      init_loop-SameItems i (down cell (length h + 1) h i (length h))
        (omega (arith, length-down (length h + 1) h i (length h))) n
      ∙ down-SameItems (length h + 1) h i (length h) hk (omega arith) n

  -- Init keeps the tasks.
  pub heap_init-SameItems : (h : List ℕ) → SameItems h (heap_init cell h)
  unfolding heap_init
  heap_init-SameItems h = init_loop-SameItems (length h / 2) h (omega arith)

  times-take_last :
      (n m : ℕ) (l : List ℕ) → length l ≡ m + 1 → times n l ≡ times n (get_or l m 0 ∷ take m l)
  times-take_last n zero (x ∷ []) e = refl
  times-take_last n (suc m) (x ∷ l) e = omega (arith, times-take_last n m l (omega arith))
  times-take_last n m [] e = absurd (omega arith)
  times-take_last n zero (x ∷ y ∷ l) e = absurd (omega arith)

  pub heap_pop-SameItems :
      (h : List ℕ) → 0 < length h → SameItems h ((heap_pop cell h).0 ∷ (heap_pop cell h).1)
  unfolding heap_pop
  heap_pop-SameItems h hp n =
      let last = length h - 1 in
      let turned = swap h 0 last in
      let size = length-swap h 0 last in
      sym (
        times-take_last n last (down cell (last + 1) turned 0 last)
          (omega (arith, size, length-down (last + 1) turned 0 last)))
      ∙ down-SameItems (last + 1) turned 0 last (omega (arith, size)) (omega (arith, size)) n
      ∙ swap-SameItems h 0 last hp (omega arith) n
