-- ===== src/Queue/Tracking.antt =====
-- Where a live task is (internal/queue/queue.go): ready, or leased to a worker.
pub mod Calls
use gojobs.Prelude.{
  ℕ, zero, suc, ◌+◌, ◌<◌, ◌≤◌, ◌≡◌, ◌≢◌, refl, sym, ap, ◌∙◌, Bool, true, false, Option, some, none,
  List, [], ◌∷◌, length, arith, Bool-cases, inl, inr, ◌⊎◌, ltb, if◌then◌else◌, ◌==◌,
}
use gojobs.Prelude.Array.{times, SameItems}
use gojobs.Prelude.Map.{nat_eq, bytes_key, lookup, put, remove, lookup-put, lookup-remove}
use gojobs.Clock.{after, before, zero_time}
use gojobs.Task.{Task, zero_task, state_ready}
use gojobs.ReadyHeap.{heap_pop, heap_push}
use gojobs.ReadyHeap.Items.{heap_pop-SameItems, heap_push-SameItems}
use gojobs.Queue.State.{Queue, go_on, update, empty_queue}
use gojobs.Queue.Backoff.{generate_backoff}
use gojobs.Queue.Methods.{
  Env, enqueue, existing, admission, append_enqueue, make_visible, dequeue, dequeue_from, lease,
  ack, retry, retry_locked, sweep_entry,
}
use gojobs.Queue.DeadLetter.{requeue_dead, purge_dead_task}
use gojobs.Queue.Spec.{IsWell}

pub record IsTracked (q : Queue) : Type 0 where
  -- A UUID names one task.
  pub unique : (p r : ℕ) → p < q.next → r < q.next → (q.cell p).id ≡ (q.cell r).id → p ≡ r
  pub ready_below : (p : ℕ) → 0 < times p q.ready → p < q.next
  pub tracked :
      (id p : ℕ)
      → lookup id q.index ≡ some p
      → (0 < times p q.ready) ⊎ (lookup id q.index_of_inflight ≡ some p)

module _ (q : Queue) (h : IsTracked q) (well : IsWell q) where
  lease-IsTracked : (now : ℕ) → 0 < length q.ready → IsTracked (lease now q).1
  unfolding lease
  lease-IsTracked now full =
      let p = (heap_pop q.cell q.ready).0 in
      let items = heap_pop-SameItems q.cell q.ready full in
      record {
        unique = λ a b la lb e. h.unique a b la lb (ground (arith, e));
        ready_below = λ a e. h.ready_below a (omega (arith, items a));
        tracked = λ id a e. grind (
          arith,
          items a,
          items p,
          h.tracked id a,
          well.index_id id a e,
          well.index_next id a e,
          h.ready_below p,
          h.unique a p,
          lookup-put (q.cell p).id id p q.index_of_inflight,
        );
      }

  dequeue_from-IsTracked :
      (now : ℕ) (ready : List ℕ) → q.ready ≡ ready → IsTracked (dequeue_from ready now q).1
  unfolding dequeue_from
  dequeue_from-IsTracked now [] e = h
  dequeue_from-IsTracked now (root ∷ rest) e =
      elim (Bool-cases (after (q.cell root).available_at now)) [
        | inl late ↦ rw late h
        | inr due ↦ rw due (lease-IsTracked now (omega (arith, ap length e)))
      ]

  pub dequeue-IsTracked : (now : ℕ) → IsTracked (dequeue now q).1
  unfolding dequeue
  dequeue-IsTracked now = dequeue_from-IsTracked now q.ready refl

  pub ack_found :
      (syncs : Bool) (id : ℕ) (o : Option ℕ) → lookup id q.index ≡ o → IsTracked (ack syncs id q).1
  unfolding ack
  ack_found syncs id none e = rw (e, go_on) h
  ack_found false id (some p) e = rw (e, go_on) h
  ack_found true id (some p) e =
      rw (e, go_on)
        (record {
          unique = λ a b la lb x. h.unique a b la lb (ground (arith, x));
          ready_below = h.ready_below;
          tracked = λ i a x. grind (
            arith,
            lookup-remove id i q.index,
            lookup-remove id i q.index_of_inflight,
            h.tracked i a,
          );
        })

  -- Whatever a task is changed to, its ID stays.
  pub pushed-IsTracked :
      (q' : Queue) (p : ℕ)
      → p < q.next
      → q'.next ≡ q.next
      → ((a : ℕ) → (q'.cell a).id ≡ (q.cell a).id)
      → SameItems (p ∷ q.ready) q'.ready
      → ((i a : ℕ)
          → lookup i q'.index ≡ some a
          → (a ≡ p)
            ⊎ (lookup i q.index ≡ some a)
              × (lookup i q'.index_of_inflight ≡ lookup i q.index_of_inflight))
      → IsTracked q'
  pushed-IsTracked q' p below next ids items kept = record {
    unique = λ a b la lb x.
        h.unique a b (rw next at la) (rw next at lb) (grind (arith, x, ids a, ids b));
    ready_below = λ a x. rw next (grind (arith, items a, h.ready_below a));
    tracked = λ i a x. grind (arith, items a, kept i a x, h.tracked i a);
  }
