-- ===== src/Queue/Overlap.antt =====
-- Calls of Enqueue that overlap (internal/queue/queue.go: Enqueue lets go of the lock while the log takes
-- its record), among each other and with the other calls.
pub mod Calls
pub mod OneTask
pub mod Promise
pub mod Overlay
pub mod Flying
pub mod Joined
pub mod Logged
pub mod Moves
pub mod Parts
pub mod Reopened
use gojobs.Prelude.{ℕ, ◌≡◌, Bool, true, false, Option, some, none, List, ◌==◌, if◌then◌else◌}
use gojobs.Prelude.Run.{Run, ok}
use gojobs.Prelude.Map.{nat_eq, lookup}
use gojobs.Task.{Task}
use gojobs.Queue.State.{Queue, append}
use gojobs.Queue.Methods.{
  Env, Admission, duplicate, submitted, start_enqueue, finish_enqueue, dequeue, ack, retry,
  sweep_entry,
}
use gojobs.Queue.DeadLetter.{requeue_dead, purge_dead_task}

-- Where one call of Enqueue stands, with its key: not begun, between its two locked parts before and
-- after the log has taken the record, returned with an ID, or returned with an error.
pub data Caller : Type 0 where
  idle : Caller
  waiting : List ℕ → Task → List ℕ → Caller
  durable : List ℕ → Task → Caller
  answered : List ℕ → ℕ → Caller
  failed : Caller

pub record Crowd : Type 0 where
  pub queue : Queue
  pub callers : ℕ → Caller

abbrev pub with_caller : ℕ → Crowd → Caller × Queue → Crowd
with_caller i s (caller, q) = record {
  queue = q;
  callers = λ j. if i == j then caller else s.callers j;
}

abbrev pub after_start : List ℕ → Run Admission × Queue → Caller × Queue
after_start key (ok (duplicate old), q) = (answered key old, q)
after_start key (ok (submitted t rec), q) = (waiting key t rec, q)
after_start key (_, q) = (failed, q)

abbrev pub after_append : List ℕ → Task → Run (Unit {0}) × Queue → Caller × Queue
after_append key t (ok _, q) = (durable key t, q)
after_append key t (_, q) = (failed, q)

abbrev pub after_finish : List ℕ → Run ℕ × Queue → Caller × Queue
after_finish key (ok id, q) = (answered key id, q)
after_finish key (_, q) = (failed, q)

-- The calls other than Enqueue, each under the lock as a whole.
pub data OtherCall (q q' : Queue) : Type 0 where
  dequeues : (now : ℕ) → q' ≡ (dequeue now q).1 → OtherCall q q'
  acks : (syncs : Bool) (id : ℕ) → q' ≡ (ack syncs id q).1 → OtherCall q q'
  retries : (env : Env) (id : ℕ) → q' ≡ (retry env id q).1 → OtherCall q q'
  sweeps :
      (env : Env) (id : ℕ)
      → q' ≡ (sweep_entry env id (lookup id q.index_of_inflight) q).1
      → OtherCall q q'
  requeues : (syncs : Bool) (id : ℕ) → q' ≡ (requeue_dead syncs id q).1 → OtherCall q q'
  purges : (syncs : Bool) (id : ℕ) → q' ≡ (purge_dead_task syncs id q).1 → OtherCall q q'

-- One part of one Enqueue, or another call.
pub data Turn (s s' : Crowd) : Type 0 where
  starts :
      (i : ℕ) (payload key : List ℕ) (id now : ℕ)
      → s.callers i ≡ idle
      → s' ≡ with_caller i s (after_start key (start_enqueue payload key id now s.queue))
      → Turn s s'
  logs :
      (i : ℕ) (key : List ℕ) (t : Task) (rec : List ℕ) (syncs : Bool)
      → s.callers i ≡ waiting key t rec
      → s' ≡ with_caller i s (after_append key t (append syncs rec s.queue))
      → Turn s s'
  finishes :
      (i : ℕ) (key : List ℕ) (t : Task)
      → s.callers i ≡ durable key t
      → s' ≡ with_caller i s (after_finish key (finish_enqueue key t s.queue))
      → Turn s s'
  calls : (q : Queue) → OtherCall s.queue q → s' ≡ record s { queue = q } → Turn s s'

pub data Turns (start : Crowd) : Crowd → Type 0 where
  here : Turns start start
  next : {s s' : Crowd} → Turns start s → Turn s s' → Turns start s'

-- Nobody has called yet.
abbrev pub new_crowd : Queue → Crowd
new_crowd q = record { queue = q; callers = λ i. idle }
