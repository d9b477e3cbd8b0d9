-- ===== src/Queue/Recovery/Listed.antt =====
-- The ready list while the log is replayed (internal/queue/queue.go: applyRecord).
use gojobs.Prelude.{
  ℕ, ◌<◌, ◌≤◌, ◌≡◌, ◌≢◌, refl, sym, Option, some, none, List, [], ◌∷◌, ◌++◌, arith,
}
use gojobs.Prelude.Run.{ok, ◌>>=◌}
use gojobs.Prelude.Array.{times, times-append}
use gojobs.Prelude.Map.{nat_eq, bytes_key, lookup, put, remove, lookup-put, lookup-remove}
use gojobs.Record.Payload.{
  Record, EnqueuePayload, DequeuePayload, DeadPayload, RequeuePayload, enqueue, dequeue, ack, retry,
  dead, requeue, purge,
}
use gojobs.Task.{Task}
use gojobs.Queue.State.{Queue}
use gojobs.Queue.Recovery.{
  apply_op, drop_id, replay_enqueue, replay_new, admit, replay_dequeue, replay_ack, replay_retry,
  replay_dead, replay_requeue, replay_purge, deref,
}
use gojobs.Queue.Recovery.Refines.{Admits}
use gojobs.Queue.Spec.{view, IsWell, entry_at}

-- The live tasks are ready, each once, and nothing else is.
pub record IsListed (q : Queue) : Type 0 where
  pub once : (p : ℕ) → times p q.ready ≤ 1
  pub ready_live : (p : ℕ) → 0 < times p q.ready → lookup (q.cell p).id q.index ≡ some p
  pub live_ready : (id p : ℕ) → lookup id q.index ≡ some p → 0 < times p q.ready

module _ (cell : ℕ → Task) (id : ℕ) where
  drop_id-other : (a : ℕ) (l : List ℕ) → (cell a).id ≢ id → times a (drop_id cell id l) ≡ times a l
  unfolding drop_id
  drop_id-other a [] h = refl
  drop_id-other a (p ∷ ps) h = grind (arith, h, drop_id-other a ps h)

  drop_id-le : (a : ℕ) (l : List ℕ) → times a (drop_id cell id l) ≤ times a l
  unfolding drop_id
  drop_id-le a [] = omega arith
  drop_id-le a (p ∷ ps) = grind (arith, drop_id-le a ps)

  drop_id-only :
      (a : ℕ) (l : List ℕ)
      → (cell a).id ≡ id
      → ((b : ℕ) → 0 < times b l → (cell b).id ≡ id → b ≡ a)
      → times a l ≤ 1
      → times a (drop_id cell id l) ≡ 0
  unfolding drop_id
  drop_id-only a [] e only once = refl
  drop_id-only a (p ∷ ps) e only once =
      let rest = drop_id-only a ps e (λ b h. only b (grind (arith, h))) (grind (arith, once)) in
      grind (arith, rest, only p, once, e)

module _ (q : Queue) (h : IsListed q) where
  same-IsListed :
      (q' : Queue)
      → q'.ready ≡ q.ready
      → q'.index ≡ q.index
      → ((a : ℕ) → (q'.cell a).id ≡ (q.cell a).id)
      → IsListed q'
  same-IsListed q' ready index ids = record {
    once = λ a. rw ready (h.once a);
    ready_live = λ a e. rw (ids a, index) (h.ready_live a (rw ready at e));
    live_ready = λ id a e. rw ready (h.live_ready id a (rw index at e));
  }

  removed-IsListed :
      (q' : Queue) (id : ℕ)
      → IsWell q
      → q'.ready ≡ drop_id q.cell id q.ready
      → q'.index ≡ remove id q.index
      → ((a : ℕ) → (q'.cell a).id ≡ (q.cell a).id)
      → IsListed q'
  removed-IsListed q' id well ready index ids = record {
    once = λ a. rw ready (omega (arith, drop_id-le q.cell id a q.ready, h.once a));
    ready_live = λ a e.
        let before = rw ready at e in
        rw (ids a, index)
          (grind (
            arith,
            before,
            drop_id-le q.cell id a q.ready,
            h.ready_live a,
            h.once a,
            lookup-remove id (q.cell a).id q.index,
            drop_id-only q.cell id a q.ready,
            only a,
          ));
    live_ready = λ i a e. rw ready (
        grind (
          arith,
          rw index at e,
          lookup-remove id i q.index,
          well.index_id i a,
          h.live_ready i a,
          drop_id-other q.cell id a q.ready,
        ));
  }
    where
      only :
          (a b : ℕ)
          → 0 < times a q.ready
          → (q.cell a).id ≡ id
          → 0 < times b q.ready
          → (q.cell b).id ≡ id
          → b ≡ a
      only a b ra ia rb ib = grind (arith, h.ready_live a ra, h.ready_live b rb, ia, ib)

  added-IsListed :
      (q' : Queue) (id c : ℕ)
      → times c q.ready ≡ 0
      → lookup id q.index ≡ none
      → q'.ready ≡ q.ready ++ c ∷ []
      → q'.index ≡ put id c q.index
      → (q'.cell c).id ≡ id
      → ((a : ℕ) → a ≢ c → (q'.cell a).id ≡ (q.cell a).id)
      → IsListed q'
  added-IsListed q' id c away new ready index own ids = record {
    once = λ a. rw ready (grind (arith, times-append a q.ready (c ∷ []), h.once a, away));
    ready_live = λ a e. rw index (
        grind (
          arith,
          rw ready at e,
          times-append a q.ready (c ∷ []),
          h.ready_live a,
          ids a,
          own,
          away,
          new,
          lookup-put id (q'.cell a).id c q.index,
        ));
    live_ready = λ i a e. rw ready (
        grind (
          arith,
          rw index at e,
          times-append a q.ready (c ∷ []),
          lookup-put id i c q.index,
          h.live_ready i a,
        ));
  }

entry_none : (cell : ℕ → Task) (o : Option ℕ) → entry_at cell o ≡ none → o ≡ none
entry_none cell none e = refl
entry_none cell (some p) e = cc

module _ (clock : Queue → ℕ) (q : Queue) (h : IsListed q) (well : IsWell q) where
  dequeue_at :
      (p : DequeuePayload) (q' : Queue) (o : Option ℕ)
      → (deref o >>= λ c. ok (replay_dequeue p q c)) ≡ ok q'
      → IsListed q'
  unfolding replay_dequeue
  dequeue_at p q' none e = cc
  dequeue_at p q' (some c) e =
      let same : replay_dequeue p q c ≡ q' = cc in
      rw (sym same) (same-IsListed q h (replay_dequeue p q c) refl refl (λ a. ground arith))

  retry_at :
      (q' : Queue) (o : Option ℕ)
      → (deref o >>= λ c. ok (replay_retry (clock q) q c)) ≡ ok q'
      → IsListed q'
  unfolding replay_retry
  retry_at q' none e = cc
  retry_at q' (some c) e =
      let same : replay_retry (clock q) q c ≡ q' = cc in
      rw (sym same) (same-IsListed q h (replay_retry (clock q) q c) refl refl (λ a. ground arith))

  dead_at :
      (p : DeadPayload) (q' : Queue) (o : Option ℕ)
      → lookup p.id q.index ≡ o
      → (deref o >>= λ c. ok (replay_dead p q c)) ≡ ok q'
      → IsListed q'
  unfolding replay_dead
  dead_at p q' none l e = cc
  dead_at p q' (some c) l e =
      let same : replay_dead p q c ≡ q' = cc in
      rw (sym same)
        (removed-IsListed q h (replay_dead p q c) (q.cell c).id well refl refl (λ a. ground arith))

  requeue_at :
      (p : RequeuePayload) (q' : Queue) (o : Option ℕ)
      → lookup p.id q.dlq ≡ o
      → (deref o >>= λ c. ok (replay_requeue p q c)) ≡ ok q'
      → IsListed q'
  unfolding replay_requeue
  requeue_at p q' none l e = cc
  requeue_at p q' (some c) l e =
      let same : replay_requeue p q c ≡ q' = cc in
      rw (sym same) (
        added-IsListed q h (replay_requeue p q c) p.id c
          (grind (arith, h.ready_live c, well.dlq_id p.id c l, well.apart p.id c, l))
          (not_live _ refl) refl refl (grind (arith, well.dlq_id p.id c l)) (λ a n. ground arith))
    where
      not_live : (o : Option ℕ) → lookup p.id q.index ≡ o → lookup p.id q.index ≡ none
      not_live none x = x
      not_live (some a) x = let away = well.apart p.id a x in cc

  enqueue_at :
      (p : EnqueuePayload) (q' : Queue) (o : Option ℕ)
      → Admits (view q) (enqueue p)
      → ok (admit p q o) ≡ ok q'
      → IsListed q'
  unfolding admit replay_new view
  enqueue_at p q' (some old) fresh e = let same : q ≡ q' = cc in rw (sym same) h
  enqueue_at p q' none fresh e =
      let same : replay_new p q ≡ q' = cc in
      rw (sym same) (
        added-IsListed q h (replay_new p q) p.id q.next
          (grind (arith, h.ready_live q.next, well.index_next (q.cell q.next).id q.next))
          (entry_none q.cell _ fresh.0) refl refl (ground arith) (λ a n. ground arith))

  pub apply_op-IsListed :
      (r : Record) (q' : Queue) → Admits (view q) r → apply_op clock q r ≡ ok q' → IsListed q'
  unfolding apply_op replay_enqueue replay_ack replay_purge
  apply_op-IsListed (enqueue p) q' fresh e = enqueue_at p q' _ fresh e
  apply_op-IsListed (dequeue p) q' fresh e = dequeue_at p q' _ e
  apply_op-IsListed (ack p) q' fresh e =
      let same : replay_ack p q ≡ q' = cc in
      rw (sym same) (removed-IsListed q h (replay_ack p q) p.id well refl refl (λ a. refl))
  apply_op-IsListed (retry p) q' fresh e = retry_at q' _ e
  apply_op-IsListed (dead p) q' fresh e = dead_at p q' _ refl e
  apply_op-IsListed (requeue p) q' fresh e = requeue_at p q' _ refl e
  apply_op-IsListed (purge p) q' fresh e =
      let same : replay_purge p q ≡ q' = cc in
      rw (sym same) (same-IsListed q h (replay_purge p q) refl refl (λ a. refl))
