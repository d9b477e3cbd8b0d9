-- ===== src/Queue/DeadLetter.antt =====
-- The dead-letter queue (internal/queue/queue.go).
pub mod Listing
use gojobs.Prelude.{ℕ, Bool, List, [], ◌∷◌, length, if◌then◌else◌}
use gojobs.Prelude.Run.{task_not_found}
use gojobs.Prelude.Map.{Map, nat_eq, lookup, put, remove}
use gojobs.Clock.{zero_time, after}
use gojobs.Record.Payload.{operation_requeue, operation_purge}
use gojobs.Record.Encode.{encode_record, encode_requeue_payload, encode_purge_payload}
use gojobs.Record.Decode.{or_err}
use gojobs.Task.{Task, state_ready}
use gojobs.ReadyHeap.{heap_push}
use gojobs.Queue.State.{Queue, Exec, lift, gets, modify, ◌>>=◌, ◌>>◌, append, update}

-- sort.Slice by FailedAt, the latest first.
unfoldable pub insert_dead : Task → List Task → List Task
insert_dead t [] = t ∷ []
insert_dead t (u ∷ us) =
    let rest = insert_dead t us in if after u.failed_at t.failed_at then u ∷ rest else t ∷ u ∷ us

unfoldable pub sort_dead : List Task → List Task
unfolding insert_dead
sort_dead [] = []
sort_dead (t ∷ ts) = insert_dead t (sort_dead ts)

-- The copies that ListDeadTasks makes, in the order of the map.
unfoldable pub copies : (ℕ → Task) → Map ℕ ℕ → List Task
copies cell [] = []
copies cell ((id, p) ∷ m) = cell p ∷ copies cell m

unfoldable pub list_dead_tasks : Queue → List Task
unfolding sort_dead copies
list_dead_tasks q = sort_dead (copies q.cell q.dlq)

unfoldable pub dead_task : ℕ → Exec Task
dead_task id = do p ← λ q. (or_err (lookup id q.dlq) task_not_found, q); gets (λ q. q.cell p)

unfoldable pub dlq_len : Queue → ℕ
dlq_len q = length q.dlq

unfoldable pub requeue_dead : Bool → ℕ → Exec (Unit {0})
unfolding encode_requeue_payload encode_record append heap_push
requeue_dead syncs id = do
  p ← λ q. (or_err (lookup id q.dlq) task_not_found, q)
  fields ← lift (encode_requeue_payload (record { id = id }))
  append syncs (encode_record operation_requeue fields)
  modify (λ q.
      let cell = update q.cell p (record (q.cell p) {
        status = state_ready;
        retries = 0;
        available_at = zero_time;
        failed_at = zero_time;
      }) in
      record q {
        cell = cell;
        dlq = remove id q.dlq;
        index = put id p q.index;
        ready = heap_push cell q.ready p;
      })

unfoldable pub purge_dead_task : Bool → ℕ → Exec (Unit {0})
unfolding encode_purge_payload encode_record append
purge_dead_task syncs id = do
  _ ← λ q. (or_err (lookup id q.dlq) task_not_found, q)
  fields ← lift (encode_purge_payload (record { id = id }))
  append syncs (encode_record operation_purge fields)
  modify (λ q. record q { dlq = remove id q.dlq })
