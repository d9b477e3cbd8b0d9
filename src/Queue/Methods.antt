-- ===== src/Queue/Methods.antt =====
-- The methods of internal/queue/queue.go that producers, consumers and the sweeper call.
use gojobs.Prelude.{
  ℕ, ◌+◌, Bool, true, false, Option, some, none, List, [], ◌∷◌, ltb, if◌then◌else◌,
}
use gojobs.Prelude.Run.{ok, task_not_found}
use gojobs.Prelude.Map.{nat_eq, bytes_key, lookup, put, remove}
use gojobs.Clock.{before, after}
use gojobs.Record.Payload.{operation_enqueue, operation_ack, operation_retry, operation_dead}
use gojobs.Record.Encode.{
  encode_record, encode_enqueue_payload, encode_ack_payload, encode_retry_payload,
  encode_dead_payload,
}
use gojobs.Record.Decode.{or_err}
use gojobs.Task.{Task, zero_task, state_ready, state_inflight, state_done, state_dead}
use gojobs.ReadyHeap.{heap_push, heap_pop}
use gojobs.Queue.State.{Queue, Exec, pure, lift, gets, modify, ◌>>=◌, ◌>>◌, append, update}
use gojobs.Queue.Backoff.{generate_backoff}

-- idemKey != ""
abbrev pub has_key : List ℕ → Bool
has_key [] = false
has_key (c ∷ key) = true

-- The task that an enqueue of `key` would repeat.
unfoldable pub existing : List ℕ → Queue → Option ℕ
existing key q = if has_key key then lookup key q.index_of_idem_keys else none

-- What the first part of Enqueue, before the append, comes to.
pub data Admission : Type 0 where
  duplicate : ℕ → Admission
  submitted : Task → List ℕ → Admission

unfoldable pub admission : List ℕ → List ℕ → ℕ → ℕ → Option ℕ → Exec Admission
unfolding encode_enqueue_payload encode_record
admission payload key id now (some old) = pure (duplicate old)
admission payload key id now none =
    let t : Task = record zero_task {
      id = id;
      idempotency_key = key;
      payload = payload;
      status = state_ready;
      enqueued_at = now;
    } in
    (do
      fields ← lift (
          encode_enqueue_payload (record {
            id = t.id;
            idempotency_key = t.idempotency_key;
            payload = t.payload;
            enqueued_at = t.enqueued_at;
            priority = t.priority;
          }))
      pure (submitted t (encode_record operation_enqueue fields)))

-- Enqueue up to the first unlock. `id` is what uuid.New returns.
unfoldable pub start_enqueue : List ℕ → List ℕ → ℕ → ℕ → Exec Admission
unfolding admission existing
start_enqueue payload key id now q = admission payload key id now (existing key q) q

unfoldable pub make_visible : List ℕ → Task → Option ℕ → Exec ℕ
unfolding heap_push
make_visible key t (some old) q = (ok old, q)
make_visible key t none q =
    let cell = update q.cell q.next t in
    (
      ok t.id,
      record q {
        cell = cell;
        next = q.next + 1;
        ready = heap_push cell q.ready q.next;
        index = put t.id q.next q.index;
        index_of_idem_keys = put key t.id q.index_of_idem_keys;
      },
    )

-- Enqueue from the second lock on: the record is durable.
unfoldable pub finish_enqueue : List ℕ → Task → Exec ℕ
unfolding make_visible existing
finish_enqueue key t q = make_visible key t (existing key q) q

-- Enqueue with nothing of another caller between its parts.
unfoldable pub append_enqueue : Bool → List ℕ → Admission → Exec ℕ
unfolding append finish_enqueue
append_enqueue syncs key (duplicate old) = pure old
append_enqueue syncs key (submitted t rec) = do append syncs rec; finish_enqueue key t

unfoldable pub enqueue : Bool → List ℕ → List ℕ → ℕ → ℕ → Exec ℕ
unfolding start_enqueue append_enqueue
enqueue syncs payload key id now = do
  admission ← start_enqueue payload key id now
  append_enqueue syncs key admission

-- The pop of Dequeue, where the root is due.
unfoldable pub lease : ℕ → Exec (Option ℕ)
unfolding heap_pop
lease now q =
    let (p, ready) = heap_pop q.cell q.ready in
    let t = q.cell p in
    (
      ok (some p),
      record q {
        ready = ready;
        cell =
            update q.cell p
              (record t { status = state_inflight; lease_until = now + q.visibility_timeout });
        index_of_inflight = put t.id p q.index_of_inflight;
      },
    )

-- Dequeue returns a pointer to the task, or nothing.
unfoldable pub dequeue_from : List ℕ → ℕ → Exec (Option ℕ)
unfolding lease
dequeue_from [] now q = (ok none, q)
dequeue_from (root ∷ _) now q =
    if after (q.cell root).available_at now then (ok none, q) else lease now q

unfoldable pub dequeue : ℕ → Exec (Option ℕ)
unfolding dequeue_from
dequeue now q = dequeue_from q.ready now q

unfoldable pub ack : Bool → ℕ → Exec (Unit {0})
unfolding encode_ack_payload encode_record append
ack syncs id = do
  p ← λ q. (or_err (lookup id q.index) task_not_found, q)
  fields ← lift (encode_ack_payload (record { id = id }))
  append syncs (encode_record operation_ack fields)
  modify (λ q. record q {
    cell = update q.cell p (record (q.cell p) { status = state_done });
    index_of_inflight = remove id q.index_of_inflight;
    index = remove id q.index;
  })

-- What a retry finds outside the queue: the log's answer, the clock, and the random number.
pub record Env : Type 0 where
  pub syncs : Bool
  pub now : ℕ
  pub scale : ℕ → ℕ

-- The branch of retryLocked for a task that has no retry left.
unfoldable pub bury : Env → ℕ → ℕ → Exec (Unit {0})
unfolding encode_dead_payload encode_record append
bury env id p = do
  retries ← gets (λ q. (q.cell p).retries)
  fields ←
      lift (encode_dead_payload (record { id = id; retries = retries + 1; failed_at = env.now }))
  append env.syncs (encode_record operation_dead fields)
  modify (λ q. record q {
    cell = update q.cell p (record (q.cell p) { status = state_dead; failed_at = env.now });
    dlq = put id p q.dlq;
    index = remove id q.index;
  })

-- The branch that puts the task back.
unfoldable pub put_back : Env → ℕ → ℕ → Exec (Unit {0})
unfolding encode_retry_payload encode_record append heap_push generate_backoff
put_back env id p = do
  fields ← lift (encode_retry_payload (record { id = id }))
  append env.syncs (encode_record operation_retry fields)
  modify (λ q.
      let t = q.cell p in
      let delay = generate_backoff env.scale t.retries in
      let cell =
        update q.cell p (record t { status = state_ready; available_at = env.now + delay }) in
      record q { cell = cell; ready = heap_push cell q.ready p })

-- The end of retryLocked: t.Retries += 1, and the lease is over.
unfoldable pub end_lease : ℕ → ℕ → Exec (Unit {0})
end_lease id p = modify (λ q. record q {
  cell = update q.cell p (record (q.cell p) { retries = (q.cell p).retries + 1 });
  index_of_inflight = remove id q.index_of_inflight;
})

unfoldable pub retry_locked : Env → ℕ → Exec (Unit {0})
unfolding bury put_back end_lease
retry_locked env id = do
  p ← λ q. (or_err (lookup id q.index) task_not_found, q)
  dies ← gets (λ q. ltb q.max_retries ((q.cell p).retries + 1))
  if dies then bury env id p else put_back env id p
  end_lease id p

-- Retry, under the lock.
unfoldable pub retry : Env → ℕ → Exec (Unit {0})
unfolding retry_locked
retry env id = retry_locked env id

-- The round of Sweeper for one entry of the map; an entry that is gone is not visited.
unfoldable pub sweep_entry : Env → ℕ → Option ℕ → Exec (Unit {0})
unfolding retry_locked
sweep_entry env id none q = (ok tt, q)
sweep_entry env id (some p) q =
    if before (q.cell p).lease_until env.now then retry_locked env id q else (ok tt, q)

-- Sweeper, in the order in which the range visits the leases. The first error ends it.
unfoldable pub sweeper : List ℕ → (ℕ → Env) → Exec (Unit {0})
unfolding sweep_entry
sweeper [] envs = pure tt
sweeper (id ∷ order) envs = do
  (λ q. sweep_entry (envs 0) id (lookup id q.index_of_inflight) q)
  sweeper order (λ i. envs (1 + i))
