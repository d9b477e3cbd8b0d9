-- ===== src/ReadyHeap/Earliest.antt =====
-- What the root of the ready heap is after a Push (internal/queue/heap.go: Less, Push).
use gojobs.Prelude.{
  ℕ, zero, suc, ◌<◌, ◌≤◌, ◌≡◌, List, [], ◌∷◌, length, ◌==◌, arith, Bool-cases, inl, inr,
}
use gojobs.Prelude.Array.{get_or, times, SameItems}
use gojobs.Task.{Task}
use gojobs.ReadyHeap.{task_less, heap_push}
use gojobs.ReadyHeap.Items.{heap_push-SameItems}
use gojobs.ReadyHeap.Order.{InOrder, IsHeap, item}
use gojobs.ReadyHeap.Root.{heap_push-IsHeap, root_least}

-- Where a number of the list stands.
place_of_item :
    (h : List ℕ) (p : ℕ) → 0 < times p h → (i : ℕ) × ((i < length h) × (get_or h i 0 ≡ p))
place_of_item [] p e = absurd (omega arith)
place_of_item (x ∷ h) p e = elim (Bool-cases (x == p)) [
  | inl same ↦ (zero, (omega arith, grind (arith, same)))
  | inr other ↦
      let (i, (inside, at_i)) = place_of_item h p (grind (arith, e, other)) in
      (suc i, (omega (arith, inside), at_i))
]

-- No task of the heap is available earlier than its root, and of those that are available at the same
-- time none was enqueued earlier.
pub record RootsEarliest (cell : ℕ → Task) (h : List ℕ) : Type 0 where
  pub available :
      (p : ℕ) → 0 < times p h → (cell (get_or h 0 0)).available_at ≤ (cell p).available_at
  pub enqueued :
      (p : ℕ)
      → 0 < times p h
      → (cell (get_or h 0 0)).available_at ≡ (cell p).available_at
      → (cell (get_or h 0 0)).enqueued_at ≤ (cell p).enqueued_at

module _ (cell : ℕ → Task) (h : List ℕ) (heap : IsHeap cell h) where
  root_first : (p : ℕ) → 0 < times p h → InOrder (cell (get_or h 0 0)) (cell p)
  root_first p e =
      let (i, (inside, at_i)) = place_of_item h p e in
      rw (at_i, item) at (root_least cell h i heap inside)

  root-RootsEarliest : RootsEarliest cell h
  unfolding task_less
  root-RootsEarliest = record {
    available = λ p e. ground (arith, root_first p e);
    enqueued = λ p e same. ground (arith, root_first p e, same);
  }

-- Push keeps a heap a heap, of the same tasks and the new one; its root is then the task that is
-- available first, and of those that are available at one time the one that was enqueued first.
pub heap_push-RootsEarliest :
    (cell : ℕ → Task) (h : List ℕ) (x : ℕ)
    → IsHeap cell h
    → IsHeap cell (heap_push cell h x)
      × SameItems (x ∷ h) (heap_push cell h x)
      × RootsEarliest cell (heap_push cell h x)
heap_push-RootsEarliest cell h x heap =
    let pushed = heap_push-IsHeap cell h x heap in
    (pushed, heap_push-SameItems cell h x, root-RootsEarliest cell (heap_push cell h x) pushed)
