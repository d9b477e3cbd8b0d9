-- ===== src/Queue/Delivery.antt =====
-- What Dequeue hands out (internal/queue/queue.go: Dequeue, NewQueue; heap.go).
use gojobs.Prelude.{
  ℕ, ◌+◌, ◌-◌, ◌/◌, ◌<◌, ◌≤◌, ◌≡◌, refl, ap, sym, ◌∙◌, true, false, Option, some, none, List, [],
  ◌∷◌, length, arith, Bool-cases, inl, inr,
}
use gojobs.Prelude.Run.{Run, ok, err, panic, out_of_fuel, ◌>>=◌}
use gojobs.Prelude.Array.{get_or, SameItems}
use gojobs.Prelude.Map.{nat_eq, lookup, lookup-put}
use gojobs.Clock.{after}
use gojobs.Task.{Task, state_inflight}
use gojobs.ReadyHeap.{task_less, heap_pop, heap_init}
use gojobs.ReadyHeap.Items.{heap_pop-SameItems}
use gojobs.ReadyHeap.Order.{InOrder, IsHeap, item}
use gojobs.ReadyHeap.Root.{root_least, heap_pop-root, heap_pop-IsHeap, heap_init-IsHeap}
use gojobs.Queue.State.{Queue, empty_queue}
use gojobs.Queue.Methods.{dequeue, dequeue_from, lease}
use gojobs.Queue.Recovery.{new_queue, apply_record}
use gojobs.Wal.Replay.{replay}

-- Dequeue leased `p`: it was due, no other ready task was due before it, and only its place in the
-- queue has changed.
pub record Leased (now p : ℕ) (q after : Queue) : Type 0 where
  pub due : (q.cell p).available_at ≤ now
  pub first : (i : ℕ) → i < length q.ready → InOrder (q.cell p) (item q.cell q.ready i)
  pub items : SameItems q.ready (p ∷ after.ready)
  pub heap : IsHeap after.cell after.ready
  pub inflight : lookup (q.cell p).id after.index_of_inflight ≡ some p
  pub task :
      after.cell p
      ≡ record (q.cell p) { status = state_inflight; lease_until = now + q.visibility_timeout }

-- What the answer of Dequeue says of the queue: nothing is due, and nothing has changed; or one
-- task was leased.
abbrev pub Delivers : ℕ → Queue → Run (Option ℕ) × Queue → Type 0
Delivers now q (ok none, q') =
    (q' ≡ q) × ((i : ℕ) → i < length q.ready → now < (item q.cell q.ready i).available_at)
Delivers now q (ok (some p), q') = Leased now p q q'
Delivers now q _ = ⊥

-- The order reads two times of each task.
pub IsHeap-times :
    (cell cell' : ℕ → Task) (h : List ℕ)
    → ((p : ℕ) → (cell' p).available_at ≡ (cell p).available_at)
    → ((p : ℕ) → (cell' p).enqueued_at ≡ (cell p).enqueued_at)
    → IsHeap cell h
    → IsHeap cell' h
unfolding task_less
IsHeap-times cell cell' h a b heap k kp kn kl =
    let i = get_or h ((k - 1) / 2) 0 in
    let j = get_or h k 0 in rw (a i, a j, b i, b j) (heap k kp kn kl)

module _ (now : ℕ) (q : Queue) (root : ℕ) (rest : List ℕ) (shape : q.ready ≡ root ∷ rest)
    (heap : IsHeap q.cell q.ready) where
  full : 0 < length q.ready
  full = rw shape (omega arith)

  root_first : (i : ℕ) → i < length q.ready → InOrder (q.cell root) (item q.cell q.ready i)
  root_first i hi = rw (sym (ap (λ l. get_or l 0 0) shape)) (root_least q.cell q.ready i heap hi)

  root_due :
      (p : ℕ)
      → p ≡ root
      → after (q.cell root).available_at now ≡ false
      → (q.cell p).available_at ≤ now
  root_due p e h = rw e (ground arith)

  popped : (heap_pop q.cell q.ready).0 ≡ root
  popped = heap_pop-root q.cell q.ready heap full ∙ ap (λ l. get_or l 0 0) shape

  lease-Leased : after (q.cell root).available_at now ≡ false → Delivers now q (lease now q)
  unfolding lease
  lease-Leased e =
      let p = (heap_pop q.cell q.ready).0 in
      record {
        due = root_due p popped e;
        first = λ i hi. rw popped (root_first i hi);
        items = heap_pop-SameItems q.cell q.ready full;
        heap =
            IsHeap-times q.cell (lease now q).1.cell (heap_pop q.cell q.ready).1 (λ j. grind arith)
              (λ j. grind arith) (heap_pop-IsHeap q.cell q.ready heap full);
        inflight = grind (arith, lookup-put (q.cell p).id (q.cell p).id p q.index_of_inflight);
        task = grind arith;
      }

  dequeue_from-Delivers : Delivers now q (dequeue_from (root ∷ rest) now q)
  unfolding dequeue_from
  dequeue_from-Delivers = elim (Bool-cases (after (q.cell root).available_at now)) [
    | inl late ↦ rw late (refl, λ i hi. later i hi late)
    | inr due ↦ rw due (lease-Leased due)
  ]
    where
      later :
          (i : ℕ)
          → i < length q.ready
          → after (q.cell root).available_at now ≡ true
          → now < (item q.cell q.ready i).available_at
      later i hi late = unfold task_less in grind (arith, root_first i hi)

-- On a queue whose ready list is a heap, Dequeue answers nothing only if no ready task is due, and
-- then it changes nothing. Otherwise it leases a task that is due, and before which no other ready
-- task comes; the others stay ready, each as often as before, and are a heap again.
pub dequeue-Delivers :
    (now : ℕ) (q : Queue) → IsHeap q.cell q.ready → Delivers now q (dequeue now q)
unfolding dequeue
dequeue-Delivers now q heap = by_ready q.ready refl
  where
    by_ready : (ready : List ℕ) → q.ready ≡ ready → Delivers now q (dequeue_from ready now q)
    by_ready [] e = unfold dequeue_from in (refl, λ i hi. absurd (omega (arith, ap length e)))
    by_ready (root ∷ rest) e = dequeue_from-Delivers now q root rest e heap

-- Whatever the log holds, the ready list of the queue that NewQueue returns is a heap.
pub new_queue-IsHeap :
    (from_bytes : List ℕ → Option ℕ) (clock : Queue → ℕ) (bytes : List ℕ) (timeout max : ℕ)
    (q : Queue)
    → new_queue from_bytes clock bytes timeout max ≡ ok q
    → IsHeap q.cell q.ready
unfolding new_queue
new_queue-IsHeap from_bytes clock bytes timeout max q e =
    by_replay (replay (apply_record from_bytes clock) bytes (empty_queue timeout max)) e
  where
    by_replay :
        (m : Run Queue)
        → (m >>= λ r. ok (record r { ready = heap_init r.cell r.ready })) ≡ ok q
        → IsHeap q.cell q.ready
    by_replay (ok r) h =
        let same : record r { ready = heap_init r.cell r.ready } ≡ q = cc in
        rw (sym same) (heap_init-IsHeap r.cell r.ready)
    by_replay (err x) h = cc
    by_replay panic h = cc
    by_replay out_of_fuel h = cc
