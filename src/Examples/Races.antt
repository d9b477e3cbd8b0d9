-- ===== src/Examples/Races.antt =====
-- internal/queue/queue.go: calls in unlucky orders
use gojobs.Prelude.{ℕ, ◌+◌, ◌*◌, ◌≡◌, refl, true, some, List, [], ◌∷◌, ◌++◌}
use gojobs.Task.{Task, zero_task, state_ready}
use gojobs.Record.Payload
use gojobs.Queue.Durability.Enqueue.{enqueue_fields}
use gojobs.Prelude.Tests.{bytes_eq}
use gojobs.Record.Read.{read_n}
use gojobs.Record.Decode.{
  decode_record, decode_enqueue_payload, decode_retry_payload, decode_ack_payload,
}
use gojobs.Prelude.Array.{times}
use gojobs.Prelude.Run.{Run, ok, err, panic, task_not_found}
use gojobs.Prelude.Map.{lookup, put, remove}
use gojobs.Clock.{second}
use gojobs.Record.Encode.{body, encode_enqueue_payload, encode_ack_payload, encode_retry_payload}
use gojobs.Record.Bytes.{put_be, get_be}
use gojobs.Wal.Replay.{apply_all}
use gojobs.Queue.State.{Queue, empty_queue}
use gojobs.Queue.Methods.{finish_enqueue, enqueue, dequeue, retry, ack, sweeper}
use gojobs.Queue.Recovery.{apply_record}
use gojobs.Examples.Data.{from_sixteen, noon, first_task}
use gojobs.Examples.Queues.{start, env, after_dequeue, after_retry}

-- The lease of the task has expired, the sweeper has put it back, and then its worker acknowledges it.
abbrev late_ack : Queue
late_ack = (ack true first_task.id after_retry).1

-- The task is handed out again.
redelivered : (dequeue (noon + 100 * second) late_ack).0 ≡ ok (some 0)
unfolding empty_queue enqueue dequeue retry ack lookup put remove
redelivered = refl

-- Its second lease ends every pass of the sweeper with an error.
sweeper_stuck :
    (sweeper
      (first_task.id ∷ [])
      (λ _. record env { now = noon + 200 * second })
      (dequeue (noon + 100 * second) late_ack).1).0
    ≡ err task_not_found
unfolding empty_queue enqueue dequeue retry ack sweeper lookup put remove
sweeper_stuck = refl

-- The lease of the task has expired, the sweeper has put it back, and then its worker gives it back too:
-- the ready heap has it twice.
ready_twice : times 0 (retry env first_task.id after_retry).1.ready ≡ 2
unfolding empty_queue enqueue dequeue retry lookup put remove
ready_twice = refl

-- Two callers with one key, both past the first look at the index.
abbrev won : Task
won = record zero_task {
  id = 5;
  idempotency_key = 107 ∷ [];
  status = state_ready;
  enqueued_at = noon;
}

abbrev other : Task
other = record zero_task {
  id = 6;
  idempotency_key = 107 ∷ [];
  status = state_ready;
  enqueued_at = noon;
}

abbrev written : Run (List ℕ) → List ℕ
written (ok b) = b
written _ = []

abbrev line : ℕ → List ℕ
line id = written (body (Payload.enqueue (enqueue_fields [] (107 ∷ []) id noon)))

-- Both records are in the log, `other` first; `won` takes the lock again first, and both callers are
-- told its ID.
abbrev both : Queue
both = record start { log = line 6 ∷ line 5 ∷ [] }

abbrev raced : Run ℕ × Queue
raced = finish_enqueue (107 ∷ []) other (finish_enqueue (107 ∷ []) won both).1

same_answer : raced.0 ≡ ok 5
unfolding empty_queue lookup put finish_enqueue bytes_eq
same_answer = refl

abbrev retried : Queue
retried = (retry env 5 (dequeue (noon + second) raced.1).1).1

-- The log of this queue does not replay: the task that it retries was not kept.
replay_panics : apply_all (apply_record from_sixteen (λ _. noon)) retried.log start ≡ panic
unfolding empty_queue lookup put remove retry dequeue apply_record body put_be get_be finish_enqueue
    bytes_eq decode_record encode_enqueue_payload decode_enqueue_payload decode_retry_payload read_n
    from_sixteen
replay_panics = refl

-- The fsync of an ACK has failed, its worker was told so, and the frame is in the file all the same; the
-- worker retries the task.
abbrev ack_left : Queue
ack_left = record after_dequeue {
  log = after_dequeue.log ++ written (body (Payload.ack (record { id = first_task.id }))) ∷ [];
}

-- The log does not replay: the task that it retries was taken away by the ACK.
ack_left_panics :
    apply_all (apply_record from_sixteen (λ _. noon)) (retry env first_task.id ack_left).1.log start
    ≡ panic
unfolding empty_queue lookup put remove enqueue retry dequeue apply_record body put_be get_be
    bytes_eq decode_record encode_enqueue_payload encode_ack_payload encode_retry_payload
    decode_enqueue_payload decode_ack_payload decode_retry_payload read_n from_sixteen
ack_left_panics = refl
