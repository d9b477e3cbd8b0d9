-- ===== src/Examples/Reopenings.antt =====
-- internal/queue/queue.go: the queue is lost while one of two callers of Enqueue has returned, and the
-- log has the record of the other.
use gojobs.Prelude.{ℕ, ◌*◌, ◌+◌, ◌≡◌, refl, true, List, [], ◌∷◌, ◌++◌, arith}
use gojobs.Prelude.Map.{nat_eq, bytes_key, lookup, put}
use gojobs.Prelude.Run.{Run, ok}
use gojobs.Clock.{second}
use gojobs.Wal.Replay.{frames, AllFit}
use gojobs.Wal.Torn.{EndsLog-nil}
use gojobs.Task.{Task, zero_task, state_ready}
use gojobs.Record.Payload
use gojobs.Record.Bytes.{put_be}
use gojobs.Queue.Durability.Enqueue.{enqueue_fields}
use gojobs.Record.Encode.{body, encode_record, encode_enqueue_payload}
use gojobs.Queue.State.{Queue, empty_queue, append}
use gojobs.Queue.Recovery.{new_queue}
use gojobs.Queue.Spec.{view}
use gojobs.Queue.Methods.{existing, admission, make_visible, start_enqueue, finish_enqueue}
use gojobs.Queue.Overlap.{
  Crowd, Turns, here, next, starts, logs, finishes, new_crowd, with_caller, after_start,
  after_append, after_finish,
}
use gojobs.Queue.Overlap.Parts.{IsApart}
use gojobs.Queue.Overlap.Reopened.{AllBring, Reopened, overlap-Reopened}
use gojobs.Examples.Data.{from_sixteen, from_sixteen-ReadsUuid, noon}
use gojobs.Examples.Queues.{start}

abbrev written : Run (List ℕ) → List ℕ
written (ok b) = b
written _ = []

-- A letter each.
abbrev name : ℕ → List ℕ
name id = (100 + id) ∷ []

abbrev line : ℕ → List ℕ
line id = written (body (Payload.enqueue (enqueue_fields [] (name id) id noon)))

abbrev task : ℕ → Task
task id = record zero_task {
  id = id;
  idempotency_key = name id;
  status = state_ready;
  enqueued_at = noon;
}

abbrev nobody : Crowd
nobody = new_crowd start

abbrev begin : ℕ → ℕ → Crowd → Crowd
begin i id s = with_caller i s (after_start (name id) (start_enqueue [] (name id) id noon s.queue))

abbrev log : ℕ → ℕ → Crowd → Crowd
log i id s = with_caller i s (after_append (name id) (task id) (append true (line id) s.queue))

abbrev one_begun : Crowd
one_begun = begin 0 5 nobody

abbrev both_begun : Crowd
both_begun = begin 1 6 one_begun

abbrev both_logged : Crowd
both_logged = log 0 5 (log 1 6 both_begun)

abbrev one_answered : Crowd
one_answered =
    with_caller 1 both_logged
      (after_finish (name 6) (finish_enqueue (name 6) (task 6) both_logged.queue))

abbrev turns : Turns nobody one_answered
unfolding empty_queue start_enqueue admission existing lookup encode_enqueue_payload encode_record
    body put_be append finish_enqueue make_visible put
turns =
    next
      (next
        (next
          (next (next here (starts 0 [] (name 5) 5 noon refl refl))
            (starts 1 [] (name 6) 6 noon refl refl))
          (logs 1 (name 6) (task 6) (line 6) true refl refl))
        (logs 0 (name 5) (task 5) (line 5) true refl refl))
      (finishes 1 (name 6) (task 6) refl refl)

first-IsApart : IsApart nobody [] (name 5) 5 noon
unfolding empty_queue view lookup
first-IsApart = record {
  named = refl;
  fits = omega arith;
  fresh = (refl, refl);
  rivals = λ j key t e. (λ x. cc, λ x. cc);
}

second-IsApart : IsApart one_begun [] (name 6) 6 noon
unfolding empty_queue view lookup start_enqueue admission existing encode_enqueue_payload
second-IsApart = record {
  named = refl;
  fits = omega arith;
  fresh = (refl, refl);
  rivals = λ j key t e. (λ x. grind (arith, e, x), λ x. grind (arith, e, x));
}

turns-AllBring : AllBring turns
unfolding turns
turns-AllBring = (((((tt, first-IsApart), second-IsApart), refl), refl), tt)

logged-AllFit : AllFit one_answered.queue.log
unfolding empty_queue start_enqueue admission existing lookup encode_enqueue_payload encode_record
    body put_be append finish_enqueue make_visible put
logged-AllFit = omega arith

overlap-Reopened_example :
    (r : Queue) × (new_queue from_sixteen (λ _. noon) (frames one_answered.queue.log ++ []) 5 0
      ≡ ok r)
    × Reopened one_answered r
overlap-Reopened_example =
    overlap-Reopened from_sixteen (λ _. noon) (30 * second) 3 5 0 one_answered [] turns
      from_sixteen-ReadsUuid (omega arith) turns-AllBring logged-AllFit EndsLog-nil
