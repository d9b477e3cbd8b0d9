-- ===== src/ReadyHeap/Root.antt =====
-- heap.Push, heap.Pop and heap.Init keep the heap order (internal/queue/heap.go).
use gojobs.Prelude.{
  ℕ, zero, suc, ◌+◌, ◌-◌, ◌/◌, ◌<◌, ◌≤◌, ◌≡◌, ◌≢◌, refl, ◌∙◌, true, not, ◌||◌, List, [], ◌∷◌, ◌++◌,
  length, take, ◌==◌, arith, length-append, length-take,
}
use gojobs.Prelude.Array.{get_or}
use gojobs.Task.{Task}
use gojobs.ReadyHeap.{
  task_less, swap, less, up, down, child, heap_push, heap_pop, init_loop, heap_init,
}
use gojobs.ReadyHeap.Items.{length-swap, get_or-swap, child-lt, up-cases, down-cases, length-down}
use gojobs.ReadyHeap.Order.{
  InOrder, InOrder-refl, InOrder-trans, InOrder-less, item, item-swap, IsHeap, IsHeapFrom,
  down-IsHeapFrom,
}

get_or-append : (h : List ℕ) (x k : ℕ) → k < length h → get_or (h ++ x ∷ []) k 0 ≡ get_or h k 0
get_or-append [] x k hk = absurd (omega arith)
get_or-append (y ∷ h) x zero hk = refl
get_or-append (y ∷ h) x (suc k) hk = get_or-append h x k (omega arith)

get_or-take : (n : ℕ) (h : List ℕ) (k : ℕ) → k < n → get_or (take n h) k 0 ≡ get_or h k 0
get_or-take zero h k hk = absurd (omega arith)
get_or-take (suc n) [] k hk = refl
get_or-take (suc n) (x ∷ h) zero hk = refl
get_or-take (suc n) (x ∷ h) (suc k) hk = get_or-take n h k (omega arith)

module _ (cell : ℕ → Task) where
  InOrder-at : {a b c d : ℕ} → a ≡ c → b ≡ d → InOrder (cell c) (cell d) → InOrder (cell a) (cell b)
  InOrder-at e f h = rw (e, f) h

  root_below :
      (fuel i : ℕ) (h : List ℕ)
      → IsHeap cell h
      → i < fuel
      → i < length h
      → InOrder (item cell h 0) (item cell h i)
  root_below zero i h heap hf hi = absurd (omega arith)
  root_below (suc fuel) zero h heap hf hi = InOrder-refl (item cell h 0)
  root_below (suc fuel) (suc i) h heap hf hi =
      InOrder-trans (item cell h 0) (item cell h ((suc i - 1) / 2)) (item cell h (suc i))
        (root_below fuel ((suc i - 1) / 2) h heap (omega arith) (omega arith))
        (heap (suc i) (omega arith) hi (omega arith))

  -- The root of a heap is due no later than any of its tasks.
  pub root_least :
      (h : List ℕ) (i : ℕ) → IsHeap cell h → i < length h → InOrder (item cell h 0) (item cell h i)
  root_least h i heap hi = root_below (suc i) i h heap (omega arith) hi

  -- A heap but for the task at `j` and its parent, which is in order with the children of `j`.
  record IsRising (j : ℕ) (h : List ℕ) : Type 0 where
    edges :
        (k : ℕ) → 0 < k → k < length h → k ≢ j → InOrder (item cell h ((k - 1) / 2)) (item cell h k)
    bridge :
        (k : ℕ)
        → 0 < k
        → k < length h
        → (k - 1) / 2 ≡ j
        → 0 < j
        → InOrder (item cell h ((j - 1) / 2)) (item cell h k)

  module _ (j : ℕ) (h : List ℕ) (hj : j < length h) (rising : IsRising j h) where
    up-IsRising :
        0 < j
        → task_less (item cell h j) (item cell h ((j - 1) / 2)) ≡ true
        → IsRising ((j - 1) / 2) (swap h ((j - 1) / 2) j)
    up-IsRising jp below = record {
      edges = λ k kp kn away.
          let inside : k < length h = omega (arith, length-swap h ((j - 1) / 2) j) in
          let atk = item-swap cell h ((j - 1) / 2) j k (omega arith) hj in
          let atp = item-swap cell h ((j - 1) / 2) j ((k - 1) / 2) (omega arith) hj in
          let over = InOrder-less (item cell h j) (item cell h ((j - 1) / 2)) below in
          grind (
            arith,
            atk,
            atp,
            over,
            rising.edges k,
            rising.bridge k,
            InOrder-trans (item cell h j) (item cell h ((j - 1) / 2)) (item cell h k),
          );
      bridge = λ k kp kn e ip.
          let inside : k < length h = omega (arith, length-swap h ((j - 1) / 2) j) in
          let atk = item-swap cell h ((j - 1) / 2) j k (omega arith) hj in
          let atp = item-swap cell h ((j - 1) / 2) j (((j - 1) / 2 - 1) / 2) (omega arith) hj in
          grind (
            arith,
            atk,
            atp,
            rising.edges k,
            rising.edges ((j - 1) / 2),
            InOrder-trans (item cell h (((j - 1) / 2 - 1) / 2)) (item cell h ((j - 1) / 2))
                (item cell h k),
          );
    }

    risen : (j - 1) / 2 == j || not (less cell h j ((j - 1) / 2)) ≡ true → IsHeap cell h
    unfolding less
    risen e k kp kn kl = grind (arith, rising.edges k)

  up-IsHeap :
      (fuel j : ℕ) (h : List ℕ)
      → j < fuel
      → j < length h
      → IsRising j h
      → IsHeap cell (up cell fuel h j)
  up-IsHeap zero j h hf hj rising = absurd (omega arith)
  up-IsHeap (suc fuel) j h hf hj rising =
      let i = (j - 1) / 2 in
      up-cases cell fuel h (IsHeap cell) j (risen j h hj rising) λ more.
        let positive : 0 < j = ground arith in
        up-IsHeap fuel i (swap h i j) (omega arith) (omega (arith, length-swap h i j))
          (up-IsRising j h hj rising positive (unfold less in ground arith))

  -- Push keeps the heap order.
  pub heap_push-IsHeap : (h : List ℕ) (x : ℕ) → IsHeap cell h → IsHeap cell (heap_push cell h x)
  unfolding heap_push
  heap_push-IsHeap h x heap =
      let size = length-append h (x ∷ []) in
      up-IsHeap (length h + 1) (length h) (h ++ x ∷ []) (omega arith) (omega (arith, size))
        (record {
          edges = λ k kp kn away.
              let inside : k < length h = omega (arith, size) in
              InOrder-at (get_or-append h x ((k - 1) / 2) (omega arith))
                (get_or-append h x k inside) (heap k kp inside (omega arith));
          bridge = λ k kp kn e p. absurd (omega (arith, size));
        })

  -- Places behind the first `n` stay as they are.
  down-beyond :
      (fuel i n k : ℕ) (h : List ℕ)
      → n ≤ length h
      → n ≤ k
      → get_or (down cell fuel h i n) k 0 ≡ get_or h k 0
  down-beyond zero i n k h hn hk = unfold down in refl
  down-beyond (suc fuel) i n k h hn hk =
      let c = child cell h i n in
      down-cases cell fuel h (λ r. get_or r k 0 ≡ get_or h k 0) i n (λ _. refl)
        λ more.
          let inside : c < n = child-lt cell h i n (ground arith) in
          let above : i < n = ground arith in
          down-beyond fuel c n k (swap h i c) (omega (arith, length-swap h i c)) hk
          ∙ ground (arith, get_or-swap h i c k (omega arith) (omega arith))

  init_loop-IsHeap :
      (k : ℕ) (h : List ℕ)
      → k ≤ length h
      → IsHeapFrom cell k (length h) h
      → IsHeap cell (init_loop cell k h)
  unfolding init_loop
  init_loop-IsHeap zero h hk heap = heap
  init_loop-IsHeap (suc i) h hk heap =
      let size = length-down cell (length h + 1) h i (length h) in
      let sifted =
        down-IsHeapFrom cell (length h + 1) i (length h) i h (omega arith) (omega arith)
          (omega arith)
          (record {
            edges = λ k kp kn kl away. heap k kp kn (omega arith);
            bridge = λ k kp kn e p above. absurd (omega arith);
          }) in
      init_loop-IsHeap i (down cell (length h + 1) h i (length h)) (omega (arith, size))
        (rw size sifted)

  -- Init makes any list of tasks a heap.
  pub heap_init-IsHeap : (h : List ℕ) → IsHeap cell (heap_init cell h)
  unfolding heap_init
  heap_init-IsHeap h =
      init_loop-IsHeap (length h / 2) h (omega arith) λ k kp kn kl. absurd (omega arith)

  module _ (h : List ℕ) (heap : IsHeap cell h) (full : 0 < length h) where
    sunk :
        IsHeapFrom cell 0
          (length h - 1)
          (down cell (length h - 1 + 1) (swap h 0 (length h - 1)) 0 (length h - 1))
    sunk k kp kn kl =
        let n = length h - 1 in
        let size = length-swap h 0 n in
        down-IsHeapFrom cell (n + 1) 0 n 0 (swap h 0 n) (omega arith) (omega arith)
          (omega (arith, size))
          (record {
            edges = λ k kp kn kl away.
                let atk = item-swap cell h 0 n k full (omega arith) in
                let atp = item-swap cell h 0 n ((k - 1) / 2) full (omega arith) in
                grind (arith, atk, atp, heap k);
            bridge = λ k kp kn e p above. absurd (omega arith);
          })
          k kp kn kl

    -- Pop takes the root.
    pub heap_pop-root : (heap_pop cell h).0 ≡ get_or h 0 0
    unfolding heap_pop
    heap_pop-root =
        let n = length h - 1 in
        let size = length-swap h 0 n in
        let turned = get_or-swap h 0 n n full (omega arith) in
        down-beyond (n + 1) 0 n n (swap h 0 n) (omega (arith, size)) (omega arith)
        ∙ ground (arith, turned)

    -- And what it leaves is a heap.
    pub heap_pop-IsHeap : IsHeap cell (heap_pop cell h).1
    unfolding heap_pop
    heap_pop-IsHeap k kp kn kl =
        let n = length h - 1 in
        let rest = down cell (n + 1) (swap h 0 n) 0 n in
        let size = length-down cell (n + 1) (swap h 0 n) 0 n in
        let size' = length-swap h 0 n in
        let inside : k < n = omega (arith, length-take n rest (omega arith)) in
        InOrder-at (get_or-take n rest ((k - 1) / 2) (omega arith)) (get_or-take n rest k inside)
          (sunk k kp inside kl)
