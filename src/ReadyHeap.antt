-- ===== src/ReadyHeap.antt =====
pub mod Items
pub mod Order
pub mod Root
pub mod Earliest
-- internal/queue/heap.go with the container/heap functions that drive it. A heap is a list of
-- pointers to tasks; `cell` is what they point to. Every index that is read is in range.
use gojobs.Prelude.{
  ℕ, zero, suc, ◌+◌, ◌-◌, ◌*◌, ◌/◌, Bool, true, false, not, ◌&&◌, ◌||◌, List, [], ◌∷◌, ◌++◌, length,
  take, ◌==◌, ltb, leb, if◌then◌else◌,
}
use gojobs.Prelude.Array.{get_or, set}
use gojobs.Clock.{before}
use gojobs.Task.{Task}

-- The order of Less on the tasks themselves.
unfoldable pub task_less : Task → Task → Bool
task_less s t =
    if not (s.available_at == t.available_at)
    then before s.available_at t.available_at
    else before s.enqueued_at t.enqueued_at

-- h.Swap(i, j)
unfoldable pub swap : List ℕ → ℕ → ℕ → List ℕ
swap h i j = set (set h i (get_or h j 0)) j (get_or h i 0)

module _ (cell : ℕ → Task) where
  -- h.Less(i, j)
  unfoldable pub less : List ℕ → ℕ → ℕ → Bool
  unfolding task_less
  less h i j = task_less (cell (get_or h i 0)) (cell (get_or h j 0))

  -- up(h, j): the parent of 0 is 0. Each round at least halves `j`.
  unfoldable pub up : ℕ → List ℕ → ℕ → List ℕ
  unfolding less swap
  up zero h j = h
  up (suc fuel) h j =
      let i = (j - 1) / 2 in
      elim (i == j || not (less h j i)) [ true ↦ h | false ↦ up fuel (swap h i j) i ]

  -- The child that down(h, i, n) compares with, where the left one exists.
  unfoldable pub child : List ℕ → ℕ → ℕ → ℕ
  unfolding less
  child h i n = let j1 = 2 * i + 1 in let j2 = j1 + 1 in if ltb j2 n && less h j2 j1 then j2 else j1

  -- down(h, i, n): each round goes to a child of `i`.
  unfoldable pub down : ℕ → List ℕ → ℕ → ℕ → List ℕ
  unfolding child less swap
  down zero h i n = h
  down (suc fuel) h i n = elim (leb n (2 * i + 1) || not (less h (child h i n) i)) [
    | true ↦ h
    | false ↦ down fuel (swap h i (child h i n)) (child h i n) n
  ]

  -- heap.Push(h, x)
  unfoldable pub heap_push : List ℕ → ℕ → List ℕ
  unfolding up
  heap_push h x = up (length h + 1) (h ++ x ∷ []) (length h)

  -- heap.Pop(h) of a heap that is not empty
  unfoldable pub heap_pop : List ℕ → ℕ × List ℕ
  unfolding down swap
  heap_pop h =
      let n = length h - 1 in let h' = down (n + 1) (swap h 0 n) 0 n in (get_or h' n 0, take n h')

  -- The loop of heap.Init(h), for i from k - 1 down to 0.
  unfoldable pub init_loop : ℕ → List ℕ → List ℕ
  unfolding down
  init_loop zero h = h
  init_loop (suc i) h = init_loop i (down (length h + 1) h i (length h))

  unfoldable pub heap_init : List ℕ → List ℕ
  unfolding init_loop
  heap_init h = init_loop (length h / 2) h
