-- ===== src/Record/Payload.antt =====
-- The operations of the log and the fields of their records (internal/queue/record.go).
-- A `uuid.UUID`, sixteen bytes, is the number that its bytes spell; a Go string is its bytes.
-- The priority and the retries are never negative in this program.
use gojobs.Prelude.{ℕ, List}

pub data OperationType : Type 0 where
  operation_enqueue operation_dequeue operation_ack operation_retry : OperationType
  operation_dead operation_requeue operation_purge : OperationType

-- The constants, `iota + 1`.
unfoldable pub tag : OperationType → ℕ
tag operation_enqueue = 1
tag operation_dequeue = 2
tag operation_ack = 3
tag operation_retry = 4
tag operation_dead = 5
tag operation_requeue = 6
tag operation_purge = 7

pub record EnqueuePayload : Type 0 where
  pub id : ℕ
  pub idempotency_key : List ℕ
  pub payload : List ℕ
  pub enqueued_at : ℕ
  pub priority : ℕ

pub record DequeuePayload : Type 0 where
  pub id : ℕ
  pub lease_until : ℕ
  pub owner : List ℕ

pub record AckPayload : Type 0 where
  pub id : ℕ

pub record RetryPayload : Type 0 where
  pub id : ℕ

pub record DeadPayload : Type 0 where
  pub id : ℕ
  pub retries : ℕ
  pub failed_at : ℕ

pub record RequeuePayload : Type 0 where
  pub id : ℕ

pub record PurgePayload : Type 0 where
  pub id : ℕ

-- What `decodeRecord` returns: the operation with the payload of its type.
pub data Record : Type 0 where
  enqueue : EnqueuePayload → Record
  dequeue : DequeuePayload → Record
  ack : AckPayload → Record
  retry : RetryPayload → Record
  dead : DeadPayload → Record
  requeue : RequeuePayload → Record
  purge : PurgePayload → Record
