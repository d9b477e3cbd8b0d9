-- ===== src/ReadyHeap/Order.antt =====
-- The heap order (internal/queue/heap.go and container/heap): the root is the task that is due first.
use gojobs.Prelude.{
  ℕ, zero, suc, ◌+◌, ◌-◌, ◌*◌, ◌/◌, ◌<◌, ◌≤◌, ◌≡◌, ◌≢◌, true, false, not, ◌||◌, List, length, ◌==◌,
  leb, arith, ◌⊎◌, if◌then◌else◌,
}
use gojobs.Prelude.Array.{get_or}
use gojobs.Task.{Task}
use gojobs.ReadyHeap.{task_less, swap, less, down, child}
use gojobs.ReadyHeap.Items.{length-swap, get_or-swap, child-lt, down-cases}

-- The first task is not due after the second one.
abbrev pub InOrder : Task → Task → Type 0
InOrder s t = task_less t s ≡ false

pub InOrder-refl : (s : Task) → InOrder s s
unfolding task_less
InOrder-refl s = ground arith

pub InOrder-trans : (s t u : Task) → InOrder s t → InOrder t u → InOrder s u
unfolding task_less
InOrder-trans s t u h k = ground arith

pub InOrder-less : (s t : Task) → task_less s t ≡ true → InOrder s t
unfolding task_less
InOrder-less s t h = ground arith

module _ (cell : ℕ → Task) where
  -- The task at a place of the heap.
  abbrev pub item : List ℕ → ℕ → Task
  item h i = cell (get_or h i 0)

  -- In the first `n` places every task is in order with its parent, if this stands at `lo` or later.
  abbrev pub IsHeapFrom : ℕ → ℕ → List ℕ → Type 0
  IsHeapFrom lo n h =
      (k : ℕ) → 0 < k → k < n → lo ≤ (k - 1) / 2 → InOrder (item h ((k - 1) / 2)) (item h k)

  abbrev pub IsHeap : List ℕ → Type 0
  IsHeap h = IsHeapFrom 0 (length h) h

  -- A heap but for the children of `i`, which are in order with its parent.
  pub record HasHole (lo n i : ℕ) (h : List ℕ) : Type 0 where
    pub edges :
        (k : ℕ)
        → 0 < k
        → k < n
        → lo ≤ (k - 1) / 2
        → (k - 1) / 2 ≢ i
        → InOrder (item h ((k - 1) / 2)) (item h k)
    pub bridge :
        (k : ℕ)
        → 0 < k
        → k < n
        → (k - 1) / 2 ≡ i
        → 0 < i
        → lo ≤ (i - 1) / 2
        → InOrder (item h ((i - 1) / 2)) (item h k)

  pub item-swap :
      (h : List ℕ) (i j k : ℕ)
      → i < length h
      → j < length h
      → item (swap h i j) k ≡ (if j == k then item h i else if i == k then item h j else item h k)
  item-swap h i j k hi hj = ground (arith, get_or-swap h i j k hi hj)

  child-parent :
      (h : List ℕ) (i n : ℕ) → (child cell h i n ≡ 2 * i + 1) ⊎ (child cell h i n ≡ 2 * i + 2)
  unfolding child
  child-parent h i n = ground arith

  child_least :
      (h : List ℕ) (i n k : ℕ)
      → 0 < k
      → k < n
      → (k - 1) / 2 ≡ i
      → InOrder (item h (child cell h i n)) (item h k)
  unfolding child less
  child_least h i n k kp kn e =
      grind
        (arith, InOrder-refl (item h k), InOrder-less (item h (2 * i + 1 + 1)) (item h (2 * i + 1)))

  module _ (lo n i : ℕ) (h : List ℕ) (hi : i < n) (hn : n ≤ length h)
      (hole : HasHole lo n i h) where
    down_edges :
        (c k : ℕ)
        → (c ≡ 2 * i + 1) ⊎ (c ≡ 2 * i + 2)
        → c < n
        → task_less (item h c) (item h i) ≡ true
        → InOrder (item h c) (item h k) ⊎ ((k - 1) / 2 ≢ i)
        → 0 < k
        → k < n
        → lo ≤ (k - 1) / 2
        → (k - 1) / 2 ≢ c
        → InOrder (item (swap h i c) ((k - 1) / 2)) (item (swap h i c) k)
    down_edges c k hc cn below least kp kn kl away =
        let atk = item-swap h i c k (omega arith) (omega arith) in
        let atp = item-swap h i c ((k - 1) / 2) (omega arith) (omega arith) in
        grind
          (arith, atk, atp, InOrder-less (item h c) (item h i) below, hole.edges k, hole.bridge k)

    down_bridge :
        (c k : ℕ)
        → (c ≡ 2 * i + 1) ⊎ (c ≡ 2 * i + 2)
        → c < n
        → 0 < k
        → k < n
        → (k - 1) / 2 ≡ c
        → lo ≤ (c - 1) / 2
        → InOrder (item (swap h i c) ((c - 1) / 2)) (item (swap h i c) k)
    down_bridge c k hc cn kp kn e above =
        let atk = item-swap h i c k (omega arith) (omega arith) in
        let atp = item-swap h i c ((c - 1) / 2) (omega arith) (omega arith) in
        grind (arith, atk, atp, hole.edges k)

    down-HasHole :
        (c : ℕ)
        → (c ≡ 2 * i + 1) ⊎ (c ≡ 2 * i + 2)
        → c < n
        → task_less (item h c) (item h i) ≡ true
        → ((k : ℕ) → 0 < k → k < n → (k - 1) / 2 ≡ i → InOrder (item h c) (item h k))
        → HasHole lo n c (swap h i c)
    down-HasHole c hc cn below least = record {
      edges = λ k kp kn kl away. down_edges c k hc cn below (apart k kp kn) kp kn kl away;
      bridge = λ k kp kn e cp above. down_bridge c k hc cn kp kn e above;
    }
      where
        apart : (k : ℕ) → 0 < k → k < n → InOrder (item h c) (item h k) ⊎ ((k - 1) / 2 ≢ i)
        apart k kp kn = grind (arith, least k kp kn)

    hole_closed :
        leb n (2 * i + 1) || not (less cell h (child cell h i n) i) ≡ true → IsHeapFrom lo n h
    unfolding less
    hole_closed e k kp kn kl = grind (
      arith,
      hole.edges k,
      child_least h i n k,
      InOrder-trans (item h i) (item h (child cell h i n)) (item h k),
    )

  -- Sifting down from a hole closes it.
  pub down-IsHeapFrom :
      (fuel lo n i : ℕ) (h : List ℕ)
      → n < fuel + i
      → i < n
      → n ≤ length h
      → HasHole lo n i h
      → IsHeapFrom lo n (down cell fuel h i n)
  down-IsHeapFrom zero lo n i h hf hi hn hole = absurd (omega arith)
  down-IsHeapFrom (suc fuel) lo n i h hf hi hn hole =
      let c = child cell h i n in
      down-cases cell fuel h (IsHeapFrom lo n) i n (hole_closed lo n i h hi hn hole) λ more.
        let inside : c < n = child-lt cell h i n (ground arith) in
        let place = child-parent h i n in
        down-IsHeapFrom fuel lo n c (swap h i c) (omega arith) inside
          (omega (arith, length-swap h i c))
          (down-HasHole lo n i h hi hn hole c place inside (unfold less in ground arith)
            (child_least h i n))
