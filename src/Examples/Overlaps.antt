-- ===== src/Examples/Overlaps.antt =====
-- internal/queue/queue.go: two callers of Enqueue with one key, each in its parts.
use gojobs.Prelude.{ℕ, ◌*◌, ◌≡◌, refl, true, List, [], ◌∷◌, ◌++◌, arith}
use gojobs.Prelude.Map.{nat_eq, bytes_key, lookup, put}
use gojobs.Prelude.Run.{Run, ok}
use gojobs.Prelude.Tests.{bytes_eq}
use gojobs.Clock.{second}
use gojobs.Wal.Replay.{frames}
use gojobs.Wal.Torn.{EndsLog-nil}
use gojobs.Task.{Task, zero_task, state_ready}
use gojobs.Record.Payload
use gojobs.Record.Bytes.{put_be}
use gojobs.Queue.Durability.Enqueue.{enqueue_fields}
use gojobs.Record.Encode.{body, encode_record, encode_enqueue_payload}
use gojobs.Queue.State.{Queue, empty_queue, append}
use gojobs.Queue.Recovery.{new_queue}
use gojobs.Queue.Durability.Restarted.{AllReady, restart-AllReady}
use gojobs.Queue.Methods.{existing, admission, make_visible, start_enqueue, finish_enqueue}
use gojobs.Queue.Overlap.{
  Crowd, Turns, here, next, starts, logs, finishes, new_crowd, with_caller, after_start,
  after_append, after_finish, answered,
}
use gojobs.Queue.Overlap.Promise.{OneTask, overlap-OneTask}
use gojobs.Examples.Data.{from_sixteen, from_sixteen-ReadsUuid, noon}
use gojobs.Examples.Queues.{start, after_retry, history, history-AllTaken, short}

restart-AllReady_example :
    (r : Queue) × (new_queue from_sixteen (λ _. noon) (frames after_retry.log ++ []) 5 0 ≡ ok r)
    × AllReady r
restart-AllReady_example =
    restart-AllReady from_sixteen (λ _. noon) (30 * second) 3 5 0 after_retry []
      from_sixteen-ReadsUuid (omega arith) history history-AllTaken short EndsLog-nil

abbrev written : Run (List ℕ) → List ℕ
written (ok b) = b
written _ = []

-- "k"
abbrev shared_key : List ℕ
shared_key = 107 ∷ []

abbrev nobody : Crowd
nobody = new_crowd start

-- Both callers look at the index before either has made a task visible.
abbrev first_begun : Crowd
first_begun =
    with_caller 0 nobody (after_start shared_key (start_enqueue [] shared_key 5 noon nobody.queue))

abbrev both_begun : Crowd
both_begun =
    with_caller 1 first_begun
      (after_start shared_key (start_enqueue [] shared_key 6 noon first_begun.queue))

both_begin : Turns nobody both_begun
both_begin =
    next (next here (starts 0 [] shared_key 5 noon refl refl))
      (starts 1 [] shared_key 6 noon refl refl)

abbrev line : ℕ → List ℕ
line id = written (body (Payload.enqueue (enqueue_fields [] shared_key id noon)))

abbrev task : ℕ → Task
task id = record zero_task {
  id = id;
  idempotency_key = shared_key;
  status = state_ready;
  enqueued_at = noon;
}

-- The log takes both records, that of the second caller first.
abbrev both_logged : Crowd
both_logged =
    let s =
      with_caller 1 both_begun
        (after_append shared_key (task 6) (append true (line 6) both_begun.queue)) in
    with_caller 0 s (after_append shared_key (task 5) (append true (line 5) s.queue))

both_log : Turns nobody both_logged
unfolding empty_queue start_enqueue admission existing lookup encode_enqueue_payload encode_record
    body put_be append
both_log =
    next (next both_begin (logs 1 shared_key (task 6) (line 6) true refl refl))
      (logs 0 shared_key (task 5) (line 5) true refl refl)

-- The first caller is told its own ID, and then the second one that of the first.
abbrev both_answered : Crowd
both_answered =
    let s =
      with_caller 0 both_logged
        (after_finish shared_key (finish_enqueue shared_key (task 5) both_logged.queue)) in
    with_caller 1 s (after_finish shared_key (finish_enqueue shared_key (task 6) s.queue))

both_finish : Turns nobody both_answered
unfolding empty_queue start_enqueue admission existing lookup encode_enqueue_payload encode_record
    body put_be append finish_enqueue make_visible put
both_finish =
    next (next both_log (finishes 0 shared_key (task 5) refl refl))
      (finishes 1 shared_key (task 6) refl refl)

second_told : both_answered.callers 1 ≡ answered shared_key 5
unfolding empty_queue start_enqueue admission existing lookup encode_enqueue_payload encode_record
    body put_be append finish_enqueue make_visible put bytes_eq
second_told = refl

overlap-OneTask_example : OneTask both_answered shared_key
overlap-OneTask_example = overlap-OneTask (30 * second) 3 both_answered shared_key both_finish refl
