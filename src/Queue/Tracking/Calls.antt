-- ===== src/Queue/Tracking/Calls.antt =====
-- Every call keeps track of the live tasks (internal/queue/queue.go).
use gojobs.Prelude.{
  ℕ, ◌+◌, ◌^◌, ◌<◌, ◌≡◌, ◌≢◌, refl, Bool, true, false, Option, some, none, List, arith, Bool-cases,
  inl, inr, ltb,
}
use gojobs.Prelude.Map.{nat_eq, bytes_key, lookup, lookup-put, lookup-remove}
use gojobs.Clock.{before, zero_time}
use gojobs.Task.{Task, zero_task, state_ready}
use gojobs.ReadyHeap.Items.{heap_push-SameItems}
use gojobs.Queue.State.{Queue, go_on, update, empty_queue}
use gojobs.Queue.Backoff.{generate_backoff}
use gojobs.Queue.Methods.{
  Env, enqueue, existing, admission, append_enqueue, make_visible, retry, retry_locked, sweep_entry,
}
use gojobs.Queue.DeadLetter.{requeue_dead, purge_dead_task}
use gojobs.Queue.Spec.{IsWell}
use gojobs.Queue.Durability.{IsSound}
use gojobs.Queue.Durability.Recovered.{
  Step, enqueues, dequeues, acks, retries, sweeps, requeues, purges, Reach, here, next,
  IsSound-empty, Reach-IsSound,
}
use gojobs.Queue.Tracking.{IsTracked, dequeue-IsTracked, ack_found, pushed-IsTracked}

module _ (q : Queue) (h : IsTracked q) (well : IsWell q) (env : Env) (id : ℕ) where
  found-IsTracked : (p : ℕ) → lookup id q.index ≡ some p → IsTracked (retry_locked env id q).1
  unfolding retry_locked
  found-IsTracked p e = elim (Bool-cases (ltb q.max_retries ((q.cell p).retries + 1))) [
    | inl dies ↦ elim (Bool-cases env.syncs) [
      | inl s ↦
          rw (e, go_on, dies, s)
            (record {
              unique = λ a b la lb x. h.unique a b la lb (ground (arith, x));
              ready_below = h.ready_below;
              tracked = λ i a x. grind (
                arith,
                lookup-remove id i q.index,
                lookup-remove id i q.index_of_inflight,
                h.tracked i a,
              );
            })
      | inr s ↦ rw (e, go_on, dies, s) h
    ]
    | inr lives ↦ elim (Bool-cases env.syncs) [
      | inl s ↦
          rw (e, go_on, lives, s)
            (pushed-IsTracked q h well _ p (well.index_next id p e) refl (λ a. ground arith)
              (heap_push-SameItems
                (update q.cell p (record (q.cell p) {
                  status = state_ready;
                  available_at = env.now + generate_backoff env.scale (q.cell p).retries;
                }))
                q.ready p)
              (λ i a x. grind (arith, lookup-remove id i q.index_of_inflight)))
      | inr s ↦ rw (e, go_on, lives, s) h
    ]
  ]

  lookup-IsTracked : (o : Option ℕ) → lookup id q.index ≡ o → IsTracked (retry_locked env id q).1
  unfolding retry_locked
  lookup-IsTracked none e = rw (e, go_on) h
  lookup-IsTracked (some p) e = found-IsTracked p e

  sweep-IsTracked : (o : Option ℕ) → IsTracked (sweep_entry env id o q).1
  unfolding sweep_entry
  sweep-IsTracked none = h
  sweep-IsTracked (some p) = elim (Bool-cases (before (q.cell p).lease_until env.now)) [
    | inl late ↦ rw late (lookup-IsTracked _ refl)
    | inr early ↦ rw early h
  ]

module _ (q : Queue) (h : IsTracked q) (well : IsWell q) (id : ℕ) where
  requeue_found :
      (syncs : Bool) (o : Option ℕ) → lookup id q.dlq ≡ o → IsTracked (requeue_dead syncs id q).1
  unfolding requeue_dead
  requeue_found syncs none e = rw (e, go_on) h
  requeue_found false (some p) e = rw (e, go_on) h
  requeue_found true (some p) e =
      rw (e, go_on)
        (pushed-IsTracked q h well _ p (well.dlq_next id p e) refl (λ a. ground arith)
          (heap_push-SameItems
            (update q.cell p (record (q.cell p) {
              status = state_ready;
              retries = 0;
              available_at = zero_time;
              failed_at = zero_time;
            }))
            q.ready p)
          (λ i a x. grind (arith, lookup-put id i p q.index)))

  purge_found :
      (syncs : Bool) (o : Option ℕ) → lookup id q.dlq ≡ o → IsTracked (purge_dead_task syncs id q).1
  unfolding purge_dead_task
  purge_found syncs none e = rw (e, go_on) h
  purge_found false (some p) e = rw (e, go_on) h
  purge_found true (some p) e =
      rw (e, go_on) (record { unique = h.unique; ready_below = h.ready_below; tracked = h.tracked })

module _ (q : Queue) (h : IsTracked q) (payload key : List ℕ) (id now : ℕ)
    (new : (p : ℕ) → p < q.next → (q.cell p).id ≢ id) where
  enqueue_found :
      (syncs : Bool) (o : Option ℕ)
      → existing key q ≡ o
      → IsTracked (enqueue syncs payload key id now q).1
  unfolding enqueue
  enqueue_found syncs (some old) e = rw (e, admission, go_on, append_enqueue) h
  enqueue_found false none e = rw (e, admission, go_on, append_enqueue) h
  enqueue_found true none e =
      let t : Task = record zero_task {
        id = id;
        idempotency_key = key;
        payload = payload;
        status = state_ready;
        enqueued_at = now;
      } in
      let items = heap_push-SameItems (update q.cell q.next t) q.ready q.next in
      rw (e, admission, go_on, e, make_visible)
        (record {
          unique = λ a b la lb x. grind (arith, x, h.unique a b, new a, new b);
          ready_below = λ a x. grind (arith, items a, h.ready_below a);
          tracked = λ i a x. grind (arith, items a, lookup-put id i q.next q.index, h.tracked i a);
        })

-- An ID from uuid.New names no task yet, not even one that is gone.
abbrev pub BringsNew : {q q' : Queue} → Step q q' → Type 0
BringsNew {q} (enqueues syncs payload key id now fits fresh e) =
    (p : ℕ) → p < q.next → (q.cell p).id ≢ id
BringsNew _ = Unit

Step-IsTracked :
    {q q' : Queue} → IsSound q → IsTracked q → (s : Step q q') → BringsNew s → IsTracked q'
Step-IsTracked {q} s h (enqueues syncs payload key id now fits fresh e) new =
    rw e (enqueue_found q h payload key id now new syncs _ refl)
Step-IsTracked {q} s h (dequeues now e) new = rw e (dequeue-IsTracked q h s.well now)
Step-IsTracked {q} s h (acks syncs id e) new = rw e (ack_found q h s.well syncs id _ refl)
Step-IsTracked {q} s h (retries env id clock e) new =
    rw e (unfold retry in lookup-IsTracked q h s.well env id _ refl)
Step-IsTracked {q} s h (sweeps env id clock e) new = rw e (sweep-IsTracked q h s.well env id _)
Step-IsTracked {q} s h (requeues syncs id e) new = rw e (requeue_found q h s.well id syncs _ refl)
Step-IsTracked {q} s h (purges syncs id e) new = rw e (purge_found q h s.well id syncs _ refl)

abbrev pub AllNew : {q q' : Queue} → Reach q q' → Type 0
AllNew here = Unit
AllNew (next r s) = AllNew r × BringsNew s

-- A queue started empty, after any calls, one at a time, that bring new IDs: every live task is ready
-- or leased, no two pointers have one ID, and no ready pointer dangles.
pub Reach-IsTracked :
    (timeout max : ℕ) (q : Queue) (r : Reach (empty_queue timeout max) q)
    → max + 1 < 2 ^ 32
    → AllNew r
    → IsTracked q
Reach-IsTracked timeout max q here room new =
    unfold empty_queue lookup in
    record {
      unique = λ a b la lb x. absurd (omega arith);
      ready_below = λ a x. absurd (omega arith);
      tracked = λ i a x. cc;
    }
Reach-IsTracked timeout max q (next r s) room new =
    Step-IsTracked (Reach-IsSound (IsSound-empty timeout max room) r)
      (Reach-IsTracked timeout max _ r room new.0) s new.1
