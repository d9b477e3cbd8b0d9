-- ===== src/Task.antt =====
-- internal/queue/task.go: a task and its states.
use gojobs.Prelude.{ℕ, String, List, []}
use gojobs.Clock.{zero_time}

pub data TaskState : Type 0 where
  state_unknown state_ready state_inflight state_done state_dead : TaskState

-- TaskState.String
unfoldable pub state_name : TaskState → String
state_name state_ready = "ready"
state_name state_inflight = "inflight"
state_name state_done = "done"
state_name state_dead = "dead"
state_name state_unknown = "unknown"

pub record Task : Type 0 where
  pub id : ℕ
  pub idempotency_key : List ℕ
  pub payload : List ℕ
  pub status : TaskState
  pub retries : ℕ
  pub available_at : ℕ
  pub failed_at : ℕ
  pub priority : ℕ
  pub enqueued_at : ℕ
  pub lease_until : ℕ
  pub owner : List ℕ

-- Task{}
abbrev pub zero_task : Task
zero_task = record {
  id = 0;
  idempotency_key = [];
  payload = [];
  status = state_unknown;
  retries = 0;
  available_at = zero_time;
  failed_at = zero_time;
  priority = 0;
  enqueued_at = zero_time;
  lease_until = zero_time;
  owner = [];
}
