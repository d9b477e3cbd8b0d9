-- ===== src/Queue/Places/Calls.antt =====
-- What each call does to the places of the tasks (internal/queue/queue.go); Ack and Retry are for a
-- task that is on lease.
use gojobs.Prelude.{
  ℕ, ◌+◌, ◌<◌, ◌≡◌, ◌≢◌, refl, Bool, true, false, Option, some, none, List, arith, Bool-cases, inl,
  inr, ltb,
}
use gojobs.Prelude.Array.{times}
use gojobs.Prelude.Map.{nat_eq, bytes_key, lookup, lookup-put, lookup-remove}
use gojobs.Clock.{before, zero_time}
use gojobs.Task.{Task, zero_task, state_ready}
use gojobs.ReadyHeap.{heap_push}
use gojobs.Queue.Delivery.{IsHeap-times}
use gojobs.ReadyHeap.Items.{heap_push-SameItems}
use gojobs.ReadyHeap.Root.{heap_push-IsHeap}
use gojobs.Queue.State.{Queue, go_on, update}
use gojobs.Queue.Backoff.{generate_backoff}
use gojobs.Queue.Methods.{
  Env, enqueue, existing, admission, append_enqueue, make_visible, ack, retry_locked, sweep_entry,
}
use gojobs.Queue.DeadLetter.{requeue_dead, purge_dead_task}
use gojobs.Queue.Spec.{IsWell}
use gojobs.Queue.Tracking.{IsTracked}
use gojobs.Queue.Places.{IsPlaced, IsHeap-others, dropped-IsPlaced, pushed-IsPlaced}

module _ (q : Queue) (h : IsPlaced q) (well : IsWell q) (id p : ℕ)
    (leased : lookup id q.index_of_inflight ≡ some p) where
  live : lookup id q.index ≡ some p
  live = h.leased_live id p leased

  pub acked-IsPlaced : (syncs : Bool) → IsPlaced (ack syncs id q).1
  unfolding ack
  acked-IsPlaced false = rw (live, go_on) h
  acked-IsPlaced true =
      rw (live, go_on)
        (dropped-IsPlaced q h well _ id p live leased refl (λ a. ground arith) (λ a. ground arith)
          (λ a. ground arith) refl refl)

  pub retried-IsPlaced : (env : Env) → IsPlaced (retry_locked env id q).1
  unfolding retry_locked
  retried-IsPlaced env = elim (Bool-cases (ltb q.max_retries ((q.cell p).retries + 1))) [
    | inl dies ↦ elim (Bool-cases env.syncs) [
      | inl s ↦
          rw (live, go_on, dies, s)
            (dropped-IsPlaced q h well _ id p live leased refl (λ a. ground arith)
              (λ a. ground arith) (λ a. ground arith) refl refl)
      | inr s ↦ rw (live, go_on, dies, s) h
    ]
    | inr lives ↦ elim (Bool-cases env.syncs) [
      | inl s ↦
          let cell = update q.cell p (record (q.cell p) {
            status = state_ready;
            available_at = env.now + generate_backoff env.scale (q.cell p).retries;
          }) in
          let after = update cell p (record (cell p) { retries = (cell p).retries + 1 }) in
          let away = h.apart id p leased in
          rw (live, go_on, lives, s)
            (pushed-IsPlaced q h well _ p away
              (IsHeap-times cell after (heap_push cell q.ready p) (λ j. ground arith)
                (λ j. ground arith)
                (heap_push-IsHeap cell q.ready p
                  (IsHeap-others q.cell cell q.ready (λ a e. grind (arith, e, away)) h.heap)))
              (heap_push-SameItems cell q.ready p) (λ a e. ground arith)
              (λ i a e. grind (
                arith,
                e,
                lookup-remove id i q.index_of_inflight,
                h.leased_live i a,
                well.index_id i a,
                well.index_id id p,
                live,
              ))
              (grind (arith, well.index_id id p live, live)) (λ i a e. e))
      | inr s ↦ rw (live, go_on, lives, s) h
    ]
  ]

  pub swept-IsPlaced : (env : Env) → IsPlaced (sweep_entry env id (some p) q).1
  unfolding sweep_entry
  swept-IsPlaced env = elim (Bool-cases (before (q.cell p).lease_until env.now)) [
    | inl late ↦ rw late (retried-IsPlaced env)
    | inr early ↦ rw early h
  ]

module _ (q : Queue) (h : IsPlaced q) (well : IsWell q) (id : ℕ) where
  dead_away : (p : ℕ) → lookup id q.dlq ≡ some p → times p q.ready ≡ 0
  dead_away p e = grind (arith, h.ready_live p, well.dlq_id id p e, well.apart id p, e)

  pub requeue_found-IsPlaced :
      (syncs : Bool) (o : Option ℕ) → lookup id q.dlq ≡ o → IsPlaced (requeue_dead syncs id q).1
  unfolding requeue_dead
  requeue_found-IsPlaced syncs none e = rw (e, go_on) h
  requeue_found-IsPlaced false (some p) e = rw (e, go_on) h
  requeue_found-IsPlaced true (some p) e =
      let cell = update q.cell p (record (q.cell p) {
        status = state_ready;
        retries = 0;
        available_at = zero_time;
        failed_at = zero_time;
      }) in
      let away = dead_away p e in
      rw (e, go_on)
        (pushed-IsPlaced q h well _ p away
          (heap_push-IsHeap cell q.ready p
            (IsHeap-others q.cell cell q.ready (λ a x. grind (arith, x, away)) h.heap))
          (heap_push-SameItems cell q.ready p) (λ a x. ground arith)
          (λ i a x.
            grind (
              arith,
              x,
              h.leased_live i a,
              well.index_id i a,
              well.dlq_id id p e,
              well.apart i a,
              e,
            ))
          (grind (arith, well.dlq_id id p e, lookup-put id id p q.index))
          (λ i a x. grind (arith, x, lookup-put id i p q.index, well.apart i a, e)))

  pub purge_found-IsPlaced :
      (syncs : Bool) (o : Option ℕ) → lookup id q.dlq ≡ o → IsPlaced (purge_dead_task syncs id q).1
  unfolding purge_dead_task
  purge_found-IsPlaced syncs none e = rw (e, go_on) h
  purge_found-IsPlaced false (some p) e = rw (e, go_on) h
  purge_found-IsPlaced true (some p) e =
      rw (e, go_on)
        (record {
          heap = h.heap;
          once = h.once;
          apart = h.apart;
          leased_live = h.leased_live;
          ready_live = h.ready_live;
        })

module _ (q : Queue) (h : IsPlaced q) (well : IsWell q) (tracked : IsTracked q)
    (payload key : List ℕ) (id now : ℕ) (new : (p : ℕ) → p < q.next → (q.cell p).id ≢ id) where
  pub enqueue_found-IsPlaced :
      (syncs : Bool) (o : Option ℕ)
      → existing key q ≡ o
      → IsPlaced (enqueue syncs payload key id now q).1
  unfolding enqueue
  enqueue_found-IsPlaced syncs (some old) e = rw (e, admission, go_on, append_enqueue) h
  enqueue_found-IsPlaced false none e = rw (e, admission, go_on, append_enqueue) h
  enqueue_found-IsPlaced true none e =
      let t : Task = record zero_task {
        id = id;
        idempotency_key = key;
        payload = payload;
        status = state_ready;
        enqueued_at = now;
      } in
      let cell = update q.cell q.next t in
      let away : times q.next q.ready ≡ 0 = grind (arith, tracked.ready_below q.next) in
      rw (e, admission, go_on, e, make_visible)
        (pushed-IsPlaced q h well _ q.next away
          (heap_push-IsHeap cell q.ready q.next
            (IsHeap-others q.cell cell q.ready (λ a x. grind (arith, x, away)) h.heap))
          (heap_push-SameItems cell q.ready q.next) (λ a x. grind (arith, x, away))
          (λ i a x. grind (arith, x, h.leased_live i a, well.index_next i a))
          (grind (arith, lookup-put id id q.next q.index))
          (λ i a x. grind (
            arith,
            x,
            lookup-put id i q.next q.index,
            new a,
            well.index_next i a,
            well.index_id i a,
          )))
