-- ===== src/Queue/Places.antt =====
-- Where each task is (internal/queue/queue.go): once on the ready heap, or leased, or neither.
pub mod Calls
pub mod Always
use gojobs.Prelude.{
  ℕ, zero, suc, ◌+◌, ◌-◌, ◌/◌, ◌<◌, ◌≤◌, ◌≡◌, ◌≢◌, refl, sym, ap, ◌∙◌, Bool, true, false, Option,
  some, none, List, [], ◌∷◌, length, arith, Bool-cases, inl, inr, ◌⊎◌, ltb, if◌then◌else◌, ◌==◌,
}
use gojobs.Prelude.Array.{get_or, times, SameItems}
use gojobs.Prelude.Map.{nat_eq, bytes_key, lookup, put, remove, lookup-put, lookup-remove}
use gojobs.Task.{Task}
use gojobs.ReadyHeap.{heap_pop, task_less}
use gojobs.ReadyHeap.Items.{heap_pop-SameItems}
use gojobs.ReadyHeap.Order.{IsHeap}
use gojobs.ReadyHeap.Root.{heap_pop-IsHeap}
use gojobs.Queue.State.{Queue, go_on, update}
use gojobs.Queue.Methods.{dequeue, dequeue_from, lease}
use gojobs.Queue.Delivery.{IsHeap-times}
use gojobs.Queue.Spec.{IsWell}
use gojobs.Clock.{after}

-- The ready list is a heap of live tasks, each once, and none of them is leased; what is leased is live.
pub record IsPlaced (q : Queue) : Type 0 where
  pub heap : IsHeap q.cell q.ready
  pub once : (p : ℕ) → times p q.ready ≤ 1
  pub apart : (id p : ℕ) → lookup id q.index_of_inflight ≡ some p → times p q.ready ≡ 0
  pub leased_live : (id p : ℕ) → lookup id q.index_of_inflight ≡ some p → lookup id q.index ≡ some p
  pub ready_live : (p : ℕ) → 0 < times p q.ready → lookup (q.cell p).id q.index ≡ some p

times-get_or : (h : List ℕ) (k : ℕ) → k < length h → 0 < times (get_or h k 0) h
times-get_or [] k kl = absurd (omega arith)
times-get_or (x ∷ h) zero kl = ground arith
times-get_or (x ∷ h) (suc k) kl = omega (arith, times-get_or h k (omega arith))

-- The order of a heap reads only the tasks that are on it.
pub IsHeap-others :
    (cell cell' : ℕ → Task) (h : List ℕ)
    → ((p : ℕ) → 0 < times p h → cell' p ≡ cell p)
    → IsHeap cell h
    → IsHeap cell' h
IsHeap-others cell cell' h same heap k kp kn kl =
    let i = get_or h ((k - 1) / 2) 0 in
    let j = get_or h k 0 in
    rw (same i (times-get_or h ((k - 1) / 2) (omega arith)), same j (times-get_or h k kn))
      (heap k kp kn kl)

module _ (q : Queue) (h : IsPlaced q) (well : IsWell q) where
  lease-IsPlaced : (now : ℕ) → 0 < length q.ready → IsPlaced (lease now q).1
  unfolding lease
  lease-IsPlaced now full =
      let p = (heap_pop q.cell q.ready).0 in
      let items = heap_pop-SameItems q.cell q.ready full in
      let live = h.ready_live p (grind (arith, items p)) in
      record {
        heap =
            IsHeap-times q.cell (lease now q).1.cell (heap_pop q.cell q.ready).1 (λ j. grind arith)
              (λ j. grind arith) (heap_pop-IsHeap q.cell q.ready h.heap full);
        once = λ a. omega (arith, h.once a, items a);
        apart = λ id a e. grind (
          arith,
          items a,
          h.once a,
          h.apart id a,
          lookup-put (q.cell p).id id p q.index_of_inflight,
        );
        leased_live = λ id a e.
            grind
              (arith, live, h.leased_live id a, lookup-put (q.cell p).id id p q.index_of_inflight);
        ready_live = λ a e. grind (arith, items a, h.ready_live a);
      }

  dequeue_from-IsPlaced :
      (now : ℕ) (ready : List ℕ) → q.ready ≡ ready → IsPlaced (dequeue_from ready now q).1
  unfolding dequeue_from
  dequeue_from-IsPlaced now [] e = h
  dequeue_from-IsPlaced now (root ∷ rest) e =
      elim (Bool-cases (after (q.cell root).available_at now)) [
        | inl late ↦ rw late h
        | inr due ↦ rw due (lease-IsPlaced now (omega (arith, ap length e)))
      ]

  pub dequeue-IsPlaced : (now : ℕ) → IsPlaced (dequeue now q).1
  unfolding dequeue
  dequeue-IsPlaced now = dequeue_from-IsPlaced now q.ready refl

  -- A leased task is gone, and the others are as they were.
  pub dropped-IsPlaced :
      (q' : Queue) (id p : ℕ)
      → lookup id q.index ≡ some p
      → lookup id q.index_of_inflight ≡ some p
      → q'.ready ≡ q.ready
      → ((a : ℕ) → (q'.cell a).id ≡ (q.cell a).id)
      → ((a : ℕ) → (q'.cell a).available_at ≡ (q.cell a).available_at)
      → ((a : ℕ) → (q'.cell a).enqueued_at ≡ (q.cell a).enqueued_at)
      → q'.index ≡ remove id q.index
      → q'.index_of_inflight ≡ remove id q.index_of_inflight
      → IsPlaced q'
  dropped-IsPlaced q' id p live leased ready ids due since index inflight = record {
    heap = rw ready (IsHeap-times q.cell q'.cell q.ready due since h.heap);
    once = λ a. rw ready (h.once a);
    apart = λ i a e.
        rw ready
          (grind (arith, rw inflight at e, lookup-remove id i q.index_of_inflight, h.apart i a));
    leased_live = λ i a e. rw index (
        grind (
          arith,
          rw inflight at e,
          lookup-remove id i q.index_of_inflight,
          lookup-remove id i q.index,
          h.leased_live i a,
        ));
    ready_live = λ a e.
        rw (ids a, index)
          (grind (
            arith,
            rw ready at e,
            h.ready_live a,
            lookup-remove id (q.cell a).id q.index,
            h.apart id p leased,
            live,
          ));
  }

  -- A task that was not on the heap was pushed, live and not leased.
  pub pushed-IsPlaced :
      (q' : Queue) (p : ℕ)
      → times p q.ready ≡ 0
      → IsHeap q'.cell q'.ready
      → SameItems (p ∷ q.ready) q'.ready
      → ((a : ℕ) → 0 < times a q.ready → (q'.cell a).id ≡ (q.cell a).id)
      → ((i a : ℕ)
          → lookup i q'.index_of_inflight ≡ some a
          → (lookup i q.index_of_inflight ≡ some a) × (a ≢ p))
      → lookup (q'.cell p).id q'.index ≡ some p
      → ((i a : ℕ) → lookup i q.index ≡ some a → lookup i q'.index ≡ some a)
      → IsPlaced q'
  pushed-IsPlaced q' p away heap items ids leased live kept = record {
    heap = heap;
    once = λ a. grind (arith, items a, h.once a, away);
    apart = λ i a e. grind (arith, items a, leased i a e, h.apart i a);
    leased_live = λ i a e. kept i a (h.leased_live i a (leased i a e).0);
    ready_live = λ a e. grind (arith, items a, h.ready_live a, ids a, live, kept (q.cell a).id a);
  }
