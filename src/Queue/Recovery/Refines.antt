-- ===== src/Queue/Recovery/Refines.antt =====
-- Replaying one record does to the queue what the specification says (applyRecord of
-- internal/queue/queue.go).
use gojobs.Prelude.{ℕ, ◌+◌, ◌≡◌, refl, ap, ◌∙◌, Option, some, none, arith}
use gojobs.Prelude.Run.{Run, ok, ◌>>=◌}
use gojobs.Prelude.Map.{nat_eq, bytes_key, lookup, put, remove}
use gojobs.Clock.{zero_time}
use gojobs.Record.Payload.{
  Record, EnqueuePayload, RetryPayload, DequeuePayload, DeadPayload, RequeuePayload, enqueue,
  dequeue, ack, retry, dead, requeue, purge,
}
use gojobs.Queue.State.{Queue}
use gojobs.Queue.Methods.{existing}
use gojobs.Queue.Recovery.{
  apply_op, replay_enqueue, replay_new, admit, replay_dequeue, replay_ack, replay_retry,
  replay_dead, replay_requeue, replay_purge, deref,
}
use gojobs.Queue.Spec.{Durable, transition, add_entry, new_entry, view, entry_of, IsWell}
use gojobs.Queue.Spec.Moves.{Holds, unchanged, dropped, purged, rewritten, buried, revived, added}

-- An ENQUEUE record names a task that is neither live nor dead: uuid.New never repeats an ID.
abbrev pub Admits : Durable → Record → Type 0
Admits d (enqueue p) = (d.live p.id ≡ none) × (d.dead_ones p.id ≡ none)
Admits d _ = Unit

-- The run returns a well-formed queue that holds `d`.
abbrev pub Reaches : Run Queue → Durable → Type 0
Reaches m d = (after : Queue) × (m ≡ ok after) × Holds after d

Holds-cast : {q : Queue} {c d : Durable} → Holds q c → some c ≡ some d → Holds q d
Holds-cast {c} {d} h e = let same : c ≡ d = cc in record { holds = h.holds ∙ same; well = h.well }

module _ (clock : Queue → ℕ) (q : Queue) (well : IsWell q) {d : Durable} where
  retry_found :
      (p : RetryPayload) (o : Option ℕ)
      → lookup p.id q.index ≡ o
      → transition (view q) (retry p) ≡ some d
      → Reaches (apply_op clock q (retry p)) d
  unfolding apply_op transition view
  retry_found p none e h = ground arith
  retry_found p (some c) e h = (
    replay_retry (clock q) q c,
    ap (λ o. deref o >>= λ c. ok (replay_retry (clock q) q c)) e,
    Holds-cast
        (rewritten q (replay_retry (clock q) q c) well refl refl p.id c
          (record (entry_of (q.cell c)) { retries = (q.cell c).retries + 1 })
          (well.index_id p.id c e) (λ x. ground arith) e refl refl)
        (rw (e, transition) at h),
  )

  dequeue_found :
      (p : DequeuePayload) (o : Option ℕ)
      → lookup p.id q.index ≡ o
      → transition (view q) (dequeue p) ≡ some d
      → Reaches (apply_op clock q (dequeue p)) d
  unfolding apply_op transition view
  dequeue_found p none e h = ground arith
  dequeue_found p (some c) e h = (
    replay_dequeue p q c,
    ap (λ o. deref o >>= λ c. ok (replay_dequeue p q c)) e,
    Holds-cast (unchanged q (replay_dequeue p q c) well refl refl (λ x. ground arith) refl refl)
        (rw (e, transition) at h),
  )

  dead_found :
      (p : DeadPayload) (o : Option ℕ)
      → lookup p.id q.index ≡ o
      → transition (view q) (dead p) ≡ some d
      → Reaches (apply_op clock q (dead p)) d
  unfolding apply_op transition view replay_dead
  dead_found p none e h = ground arith
  dead_found p (some c) e h = (
    replay_dead p q c,
    ap (λ o. deref o >>= λ c. ok (replay_dead p q c)) e,
    Holds-cast
        (buried q (replay_dead p q c) well refl refl p.id c
          (record (entry_of (q.cell c)) { retries = p.retries; failed_at = p.failed_at })
          (well.index_id p.id c e) (λ x. ground arith) e
          (ap (λ i. remove i q.index) (well.index_id p.id c e))
          (ap (λ i. put i c q.dlq) (well.index_id p.id c e)))
        (rw (e, transition) at h),
  )

  requeue_found :
      (p : RequeuePayload) (o : Option ℕ)
      → lookup p.id q.dlq ≡ o
      → transition (view q) (requeue p) ≡ some d
      → Reaches (apply_op clock q (requeue p)) d
  unfolding apply_op transition view
  requeue_found p none e h = ground arith
  requeue_found p (some c) e h = (
    replay_requeue p q c,
    ap (λ o. deref o >>= λ c. ok (replay_requeue p q c)) e,
    Holds-cast
        (revived q (replay_requeue p q c) well refl refl p.id c
          (record (entry_of (q.cell c)) { retries = 0; failed_at = zero_time })
          (well.dlq_id p.id c e) (λ x. ground arith) e refl refl)
        (rw (e, transition) at h),
  )

  enqueue_found :
      (p : EnqueuePayload) (o : Option ℕ)
      → existing p.idempotency_key q ≡ o
      → Admits (view q) (enqueue p)
      → transition (view q) (enqueue p) ≡ some d
      → Reaches (apply_op clock q (enqueue p)) d
  unfolding apply_op transition view replay_enqueue existing add_entry
  enqueue_found p (some old) e fresh h = (
    q,
    ap (λ o. ok (admit p q o)) e,
    Holds-cast (record { holds = refl; well = well }) (rw (e, transition) at h),
  )
  enqueue_found p none e fresh h = (
    replay_new p q,
    ap (λ o. ok (admit p q o)) e,
    Holds-cast
        (added q (replay_new p q) well p.idempotency_key (new_entry p) refl refl (λ x. ground arith)
          fresh.1 refl refl)
        (rw (e, transition) at h),
  )

  -- On a well-formed queue, a record that the specification allows, with an ID that is new if it is
  -- an ENQUEUE, is applied with no panic and no error, to the effect that the specification gives
  -- it, and the queue is well-formed again.
  pub apply_op-refines :
      (r : Record)
      → Admits (view q) r
      → transition (view q) r ≡ some d
      → Reaches (apply_op clock q r) d
  apply_op-refines (enqueue p) fresh h = enqueue_found p _ refl fresh h
  apply_op-refines (dequeue p) fresh h = dequeue_found p _ refl h
  apply_op-refines (ack p) fresh h =
      unfold apply_op transition in
      (
        replay_ack p q,
        refl,
        Holds-cast (dropped q (replay_ack p q) well refl refl p.id (λ x. refl) refl refl) h,
      )
  apply_op-refines (retry p) fresh h = retry_found p _ refl h
  apply_op-refines (dead p) fresh h = dead_found p _ refl h
  apply_op-refines (requeue p) fresh h = requeue_found p _ refl h
  apply_op-refines (purge p) fresh h =
      unfold apply_op transition in
      (
        replay_purge p q,
        refl,
        Holds-cast (purged q (replay_purge p q) well refl refl p.id (λ x. refl) refl refl) h,
      )
