-- ===== src/Queue/Recovery.antt =====
-- applyRecord and NewQueue of internal/queue/queue.go.
pub mod Refines
pub mod Listed
pub mod Termination
use gojobs.Prelude.{ℕ, ◌+◌, Bool, Option, some, none, List, [], ◌∷◌, ◌++◌, ◌==◌, if◌then◌else◌}
use gojobs.Prelude.Run.{Run, ok, err, panic, ◌>>=◌}
use gojobs.Prelude.Map.{nat_eq, bytes_key, lookup, put, remove}
use gojobs.Clock.{zero_time}
use gojobs.Record.Payload.{
  Record, EnqueuePayload, DequeuePayload, AckPayload, DeadPayload, RequeuePayload, PurgePayload,
  enqueue, dequeue, ack, retry, dead, requeue, purge,
}
use gojobs.Record.Decode.{decode_record}
use gojobs.Wal.Replay.{replay}
use gojobs.Task.{Task, zero_task, state_ready, state_inflight, state_dead}
use gojobs.ReadyHeap.{heap_init}
use gojobs.Queue.State.{Queue, empty_queue, update}
use gojobs.Queue.Methods.{existing}

-- The loop over q.ready that removes the first task with an ID.
unfoldable pub drop_id : (ℕ → Task) → ℕ → List ℕ → List ℕ
drop_id cell id [] = []
drop_id cell id (p ∷ ps) =
    let rest = drop_id cell id ps in if (cell p).id == id then ps else p ∷ rest

-- A nil pointer that is followed.
abbrev pub deref : Option ℕ → Run ℕ
deref (some p) = ok p
deref none = panic

-- A new task at the end of the ready list.
unfoldable pub replay_new : EnqueuePayload → Queue → Queue
replay_new p q =
    let t : Task = record zero_task {
      id = p.id;
      idempotency_key = p.idempotency_key;
      payload = p.payload;
      status = state_ready;
      enqueued_at = p.enqueued_at;
      priority = p.priority;
    } in
    record q {
      cell = update q.cell q.next t;
      next = q.next + 1;
      ready = q.ready ++ q.next ∷ [];
      index = put t.id q.next q.index;
      index_of_idem_keys = put p.idempotency_key t.id q.index_of_idem_keys;
    }

-- A key that was seen before breaks off the case.
unfoldable pub admit : EnqueuePayload → Queue → Option ℕ → Queue
unfolding replay_new
admit p q (some old) = q
admit p q none = replay_new p q

unfoldable pub replay_enqueue : EnqueuePayload → Queue → Queue
unfolding admit existing
replay_enqueue p q = admit p q (existing p.idempotency_key q)

unfoldable pub replay_dequeue : DequeuePayload → Queue → ℕ → Queue
replay_dequeue p q c = record q {
  cell = update q.cell c (record (q.cell c) { status = state_inflight });
  index_of_inflight = put p.id c q.index_of_inflight;
}

unfoldable pub replay_ack : AckPayload → Queue → Queue
unfolding drop_id
replay_ack p q = record q { index = remove p.id q.index; ready = drop_id q.cell p.id q.ready }

-- The task is available at once, wherever in the ready list it stands.
unfoldable pub replay_retry : ℕ → Queue → ℕ → Queue
replay_retry now q c =
    let t = q.cell c in
    record q {
      cell =
          update q.cell c
            (record t { retries = t.retries + 1; status = state_ready; available_at = now });
      index_of_inflight = remove t.id q.index_of_inflight;
    }

unfoldable pub replay_dead : DeadPayload → Queue → ℕ → Queue
unfolding drop_id
replay_dead p q c =
    let t = q.cell c in
    record q {
      ready = drop_id q.cell t.id q.ready;
      cell =
          update q.cell c
            (record t { status = state_dead; retries = p.retries; failed_at = p.failed_at });
      dlq = put t.id c q.dlq;
      index_of_inflight = remove t.id q.index_of_inflight;
      index = remove t.id q.index;
    }

unfoldable pub replay_requeue : RequeuePayload → Queue → ℕ → Queue
replay_requeue p q c = record q {
  cell = update q.cell c (record (q.cell c) {
    status = state_ready;
    retries = 0;
    available_at = zero_time;
    failed_at = zero_time;
  });
  dlq = remove p.id q.dlq;
  index = put p.id c q.index;
  ready = q.ready ++ c ∷ [];
}

unfoldable pub replay_purge : PurgePayload → Queue → Queue
replay_purge p q = record q { dlq = remove p.id q.dlq }

-- The switch of applyRecord. `clock` is what time.Now returns.
unfoldable pub apply_op : (Queue → ℕ) → Queue → Record → Run Queue
unfolding replay_enqueue replay_dequeue replay_ack replay_retry replay_dead replay_requeue
    replay_purge
apply_op clock q (enqueue p) = ok (replay_enqueue p q)
apply_op clock q (dequeue p) = do c ← deref (lookup p.id q.index); ok (replay_dequeue p q c)
apply_op clock q (ack p) = ok (replay_ack p q)
apply_op clock q (retry p) = do c ← deref (lookup p.id q.index); ok (replay_retry (clock q) q c)
apply_op clock q (dead p) = do c ← deref (lookup p.id q.index); ok (replay_dead p q c)
apply_op clock q (requeue p) = do c ← deref (lookup p.id q.dlq); ok (replay_requeue p q c)
apply_op clock q (purge p) = ok (replay_purge p q)

module _ (from_bytes : List ℕ → Option ℕ) (clock : Queue → ℕ) where
  unfoldable pub apply_record : Queue → List ℕ → Run Queue
  unfolding apply_op
  apply_record q rec = do op ← decode_record from_bytes rec; apply_op clock q op

  -- NewQueue on a log file with these bytes.
  unfoldable pub new_queue : List ℕ → ℕ → ℕ → Run Queue
  unfolding apply_record
  new_queue bytes visibility_timeout max_retries = do
    q ← replay apply_record bytes (empty_queue visibility_timeout max_retries)
    ok (record q { ready = heap_init q.cell q.ready })
