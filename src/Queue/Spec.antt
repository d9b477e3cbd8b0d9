-- ===== src/Queue/Spec.antt =====
-- What the queue promises to keep, with no pointers and no order (internal/queue/queue.go): the live
-- tasks, the dead ones, and the task of each idempotency key; and what each record of the log does.
pub mod Moves
use gojobs.Prelude.{
  ℕ, ◌+◌, ◌<◌, ◌≡◌, Bool, Option, some, none, List, ◌==◌, bytes_eq, if◌then◌else◌, fun_ext,
}
use gojobs.Prelude.Map.{nat_eq, bytes_key, lookup}
use gojobs.Clock.{zero_time}
use gojobs.Record.Payload.{
  Record, EnqueuePayload, enqueue, dequeue, ack, retry, dead, requeue, purge,
}
use gojobs.Task.{Task}
use gojobs.Queue.State.{Queue}
use gojobs.Queue.Methods.{has_key}

pub record Entry : Type 0 where
  pub id : ℕ
  pub idempotency_key : List ℕ
  pub payload : List ℕ
  pub enqueued_at : ℕ
  pub priority : ℕ
  pub retries : ℕ
  pub failed_at : ℕ

pub record Durable : Type 0 where
  pub live : ℕ → Option Entry
  pub dead_ones : ℕ → Option Entry
  pub keys : List ℕ → Option ℕ

abbrev pub change {ℓ} : {A : Type ℓ} → (ℕ → Option A) → ℕ → Option A → ℕ → Option A
change f k v j = if k == j then v else f j

abbrev pub change_key : (List ℕ → Option ℕ) → List ℕ → ℕ → List ℕ → Option ℕ
change_key f k v j = if bytes_eq k j then some v else f j

-- The task of a key that was seen before; the empty key is never seen.
abbrev pub seen : Durable → List ℕ → Option ℕ
seen d key = if has_key key then d.keys key else none

abbrev pub new_entry : EnqueuePayload → Entry
new_entry p = record {
  id = p.id;
  idempotency_key = p.idempotency_key;
  payload = p.payload;
  enqueued_at = p.enqueued_at;
  priority = p.priority;
  retries = 0;
  failed_at = zero_time;
}

unfoldable pub add_entry : Durable → EnqueuePayload → Durable
add_entry d p = record d {
  live = change d.live p.id (some (new_entry p));
  keys = change_key d.keys p.idempotency_key p.id;
}

-- What a record does; nothing, if it names a task that is not there.
unfoldable pub transition : Durable → Record → Option Durable
unfolding add_entry
transition d (enqueue p) = elim (seen d p.idempotency_key) [
  | some old ↦ some d
  | none ↦ some (add_entry d p)
]
transition d (dequeue p) = elim (d.live p.id) [ none ↦ none | some e ↦ some d ]
transition d (ack p) = some (record d { live = change d.live p.id none })
transition d (retry p) = elim (d.live p.id) [
  | none ↦ none
  | some e ↦
      some (record d { live = change d.live p.id (some (record e { retries = e.retries + 1 })) })
]
transition d (dead p) = elim (d.live p.id) [
  | none ↦ none
  | some e ↦ some (record d {
    live = change d.live p.id none;
    dead_ones =
        change d.dead_ones p.id (some (record e { retries = p.retries; failed_at = p.failed_at }));
  })
]
transition d (requeue p) = elim (d.dead_ones p.id) [
  | none ↦ none
  | some e ↦ some (record d {
    dead_ones = change d.dead_ones p.id none;
    live = change d.live p.id (some (record e { retries = 0; failed_at = zero_time }));
  })
]
transition d (purge p) = some (record d { dead_ones = change d.dead_ones p.id none })

abbrev pub entry_of : Task → Entry
entry_of t = record {
  id = t.id;
  idempotency_key = t.idempotency_key;
  payload = t.payload;
  enqueued_at = t.enqueued_at;
  priority = t.priority;
  retries = t.retries;
  failed_at = t.failed_at;
}

abbrev pub entry_at : (ℕ → Task) → Option ℕ → Option Entry
entry_at cell none = none
entry_at cell (some p) = some (entry_of (cell p))

-- What a queue holds of this.
unfoldable pub view : Queue → Durable
view q = record {
  live = λ id. entry_at q.cell (lookup id q.index);
  dead_ones = λ id. entry_at q.cell (lookup id q.dlq);
  keys = λ key. lookup key q.index_of_idem_keys;
}

pub Durable_path :
    {d e : Durable}
    → ((id : ℕ) → d.live id ≡ e.live id)
    → ((id : ℕ) → d.dead_ones id ≡ e.dead_ones id)
    → ((key : List ℕ) → d.keys key ≡ e.keys key)
    → d ≡ e
Durable_path f g h =
    λ i. record { live = λ id. f id i; dead_ones = λ id. g id i; keys = λ key. h key i }

-- A pointer in a map refers to a task with the ID of its key, and no task is both live and dead.
pub record IsWell (q : Queue) : Type 0 where
  pub index_id : (id p : ℕ) → lookup id q.index ≡ some p → (q.cell p).id ≡ id
  pub dlq_id : (id p : ℕ) → lookup id q.dlq ≡ some p → (q.cell p).id ≡ id
  pub index_next : (id p : ℕ) → lookup id q.index ≡ some p → p < q.next
  pub dlq_next : (id p : ℕ) → lookup id q.dlq ≡ some p → p < q.next
  pub apart : (id p : ℕ) → lookup id q.index ≡ some p → lookup id q.dlq ≡ none
