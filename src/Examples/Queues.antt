-- ===== src/Examples/Queues.antt =====
-- internal/queue/queue.go
use gojobs.Prelude.{◌+◌, ◌*◌, ◌/◌, ◌≡◌, refl, true, some, none, [], ◌++◌, arith}
use gojobs.Prelude.Run.{ok}
use gojobs.Prelude.Map.{nat_eq, lookup, put, remove}
use gojobs.Clock.{second}
use gojobs.Record.Bytes.{put_be}
use gojobs.Wal.Replay.{frames, AllFit}
use gojobs.Wal.Torn.{EndsLog-nil}
use gojobs.Queue.State.{Queue, empty_queue}
use gojobs.Queue.Methods.{Env, enqueue, dequeue, retry}
use gojobs.Queue.Spec.{Durable, view, change, new_entry, transition}
use gojobs.Record.Payload.{dead}
use gojobs.Queue.Recovery.{new_queue, apply_op}
use gojobs.Queue.Recovery.Refines.{Reaches, apply_op-refines}
use gojobs.Queue.Durability.{IsSound, Keeps}
use gojobs.Queue.Durability.Recovered.{
  IsSound-empty, Reach-IsSound, Step-Keeps, Reach, AllTaken, here, next, enqueues, dequeues,
  retries, recovery,
}
use gojobs.Examples.Data.{from_sixteen, from_sixteen-ReadsUuid, noon, first_task}

abbrev pub start : Queue
start = empty_queue (30 * second) 3

abbrev pub after_enqueue : Queue
after_enqueue =
    (enqueue true first_task.payload first_task.idempotency_key first_task.id noon start).1

abbrev pub after_dequeue : Queue
after_dequeue = (dequeue (noon + second) after_enqueue).1

abbrev pub env : Env
env = record { syncs = true; now = noon + second; scale = λ c. c / 2 }

abbrev pub after_retry : Queue
after_retry = (retry env first_task.id after_dequeue).1

abbrev pub leased : Reach start after_dequeue
unfolding empty_queue view lookup
leased =
    next
      (next here (
        enqueues true first_task.payload first_task.idempotency_key first_task.id noon (omega arith)
          (refl, refl) refl))
      (dequeues (noon + second) refl)

abbrev pub history : Reach start after_retry
unfolding leased
history = next leased (retries env first_task.id (omega arith) refl)

pub leased-IsSound : IsSound after_dequeue
leased-IsSound = Reach-IsSound (IsSound-empty (30 * second) 3 (omega arith)) leased

Step-Keeps_example : Keeps after_dequeue after_retry
Step-Keeps_example = Step-Keeps leased-IsSound (retries env first_task.id (omega arith) refl) refl

-- What the queue holds once its task is dead.
abbrev with_dead : Durable
with_dead = record {
  live = change (view after_dequeue).live first_task.id none;
  dead_ones =
      change (view after_dequeue).dead_ones first_task.id
        (some (record (new_entry first_task) { retries = 4; failed_at = noon }));
  keys = (view after_dequeue).keys;
}

apply_op-refines_example :
    Reaches
      (apply_op
        (λ _. noon)
        after_dequeue
        (dead (record { id = first_task.id; retries = 4; failed_at = noon })))
      with_dead
unfolding empty_queue enqueue dequeue view lookup transition put remove
apply_op-refines_example =
    apply_op-refines (λ _. noon) after_dequeue leased-IsSound.well
      (dead (record { id = first_task.id; retries = 4; failed_at = noon })) tt refl

pub history-AllTaken : AllTaken history
unfolding leased history
history-AllTaken = (((tt, refl), tt), refl)

pub short : AllFit after_retry.log
unfolding empty_queue enqueue dequeue retry put_be lookup put
short = omega arith

recovery_example :
    (r : Queue) × (new_queue from_sixteen (λ _. noon) (frames after_retry.log ++ []) 5 0 ≡ ok r)
    × (view r ≡ view after_retry)
recovery_example =
    recovery from_sixteen (λ _. noon) (30 * second) 3 5 0 after_retry [] from_sixteen-ReadsUuid
      (omega arith) history history-AllTaken short EndsLog-nil
