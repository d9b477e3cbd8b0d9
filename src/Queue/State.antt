-- ===== src/Queue/State.antt =====
-- The state of a queue (internal/queue/queue.go), and methods that change it and may fail. The lock
-- makes each locked part of a method one step, so the mutex has no field here; nor have the
-- channel and the wait group, which only end the goroutines.
use gojobs.Prelude.{ℕ, Bool, List, [], ◌∷◌, ◌++◌, ◌==◌, if◌then◌else◌}
use gojobs.Prelude.Run.{Run, ok, err, panic, out_of_fuel, io_error}
use gojobs.Prelude.Map.{Map}
use gojobs.Task.{Task, zero_task}

-- The maps hold pointers; `cell` is what each pointer refers to, and `next` is the first free one.
-- `log` is the records that were acknowledged since the queue was opened.
pub record Queue : Type 0 where
  pub cell : ℕ → Task
  pub next : ℕ
  pub ready : List ℕ
  pub index : Map ℕ ℕ
  pub index_of_inflight : Map ℕ ℕ
  pub index_of_idem_keys : Map (List ℕ) ℕ
  pub log : List (List ℕ)
  pub visibility_timeout : ℕ
  pub max_retries : ℕ
  pub dlq : Map ℕ ℕ

-- The queue that NewQueue makes before it replays the log.
unfoldable pub empty_queue : ℕ → ℕ → Queue
empty_queue visibility_timeout max_retries = record {
  cell = λ _. zero_task;
  next = 0;
  ready = [];
  index = [];
  index_of_inflight = [];
  index_of_idem_keys = [];
  log = [];
  visibility_timeout = visibility_timeout;
  max_retries = max_retries;
  dlq = [];
}

-- *p = t
abbrev pub update : (ℕ → Task) → ℕ → Task → ℕ → Task
update cell p t q = if p == q then t else cell q

-- What was changed before an error stays changed.
abbrev pub Exec : Type 0 → Type 0
Exec A = Queue → Run A × Queue

abbrev pub pure : {A : Type 0} → A → Exec A
pure a q = (ok a, q)

abbrev pub lift : {A : Type 0} → Run A → Exec A
lift r q = (r, q)

abbrev pub gets : {A : Type 0} → (Queue → A) → Exec A
gets f q = (ok (f q), q)

abbrev pub modify : (Queue → Queue) → Exec (Unit {0})
modify f q = (ok tt, f q)

abbrev pub go_on : {A B : Type 0} → Run A → (A → Exec B) → Exec B
go_on (ok a) f q = f a q
go_on (err e) f q = (err e, q)
go_on panic f q = (panic, q)
go_on out_of_fuel f q = (out_of_fuel, q)

infixl 5 ◌>>=◌ ◌>>◌
abbrev pub ◌>>=◌ : {A B : Type 0} → Exec A → (A → Exec B) → Exec B
◌>>=◌ m f q = let (r, q') = m q in go_on r f q'

abbrev pub ◌>>◌ : {B : Type 0} → Exec (Unit {0}) → Exec B → Exec B
m >> k = m >>= λ _. k

-- q.wal.Append(record) on a log that is open: the caller is told whether the record is durable, and
-- `syncs` is the answer. A failed append may leave its bytes, or its whole frame, in the file; `log`
-- says nothing of them, so it stands for the file only as long as no append has failed.
unfoldable pub append : Bool → List ℕ → Exec (Unit {0})
append syncs rec q =
    if syncs then (ok tt, record q { log = q.log ++ rec ∷ [] }) else (err io_error, q)
