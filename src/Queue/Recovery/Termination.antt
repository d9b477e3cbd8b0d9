-- ===== src/Queue/Recovery/Termination.antt =====
-- Opening a queue ends, whatever the log file holds (internal/queue/queue.go: NewQueue, applyRecord;
-- wal.go: Replay).
use gojobs.Prelude.{ℕ, Option, some, none, List}
use gojobs.Prelude.Run.{Run, ok, err, panic, out_of_fuel, Returns}
use gojobs.Prelude.Map.{nat_eq, lookup}
use gojobs.Record.Payload.{Record, enqueue, dequeue, ack, retry, dead, requeue, purge}
use gojobs.Record.Decode.{decode_record}
use gojobs.Record.Safety.{decode_record-Returns}
use gojobs.Wal.Replay.{Ends, >>=-Ends, replay-Ends}
use gojobs.Queue.State.{Queue, empty_queue}
use gojobs.Queue.Recovery.{apply_op, apply_record, new_queue, deref}

Returns-Ends : {A : Type 0} (m : Run A) → Returns m → Ends m
Returns-Ends (ok a) h = tt
Returns-Ends (err e) h = tt
Returns-Ends panic h = tt
Returns-Ends out_of_fuel h = h

deref-Ends : (o : Option ℕ) → Ends (deref o)
deref-Ends none = tt
deref-Ends (some p) = tt

apply_op-Ends : (clock : Queue → ℕ) (q : Queue) (r : Record) → Ends (apply_op clock q r)
unfolding apply_op
apply_op-Ends clock q (enqueue p) = tt
apply_op-Ends clock q (dequeue p) =
    >>=-Ends (deref (lookup p.id q.index)) _ (deref-Ends _) (λ c. tt)
apply_op-Ends clock q (ack p) = tt
apply_op-Ends clock q (retry p) = >>=-Ends (deref (lookup p.id q.index)) _ (deref-Ends _) (λ c. tt)
apply_op-Ends clock q (dead p) = >>=-Ends (deref (lookup p.id q.index)) _ (deref-Ends _) (λ c. tt)
apply_op-Ends clock q (requeue p) = >>=-Ends (deref (lookup p.id q.dlq)) _ (deref-Ends _) (λ c. tt)
apply_op-Ends clock q (purge p) = tt

module _ (from_bytes : List ℕ → Option ℕ) (clock : Queue → ℕ) where
  apply_record-Ends : (q : Queue) (rec : List ℕ) → Ends (apply_record from_bytes clock q rec)
  unfolding apply_record
  apply_record-Ends q rec =
      >>=-Ends (decode_record from_bytes rec) (apply_op clock q)
        (Returns-Ends (decode_record from_bytes rec) (decode_record-Returns from_bytes rec))
        (apply_op-Ends clock q)

  -- On a log file with any bytes, NewQueue ends: it returns a queue or an error, or it panics, and the
  -- loop of Replay is not cut off by its fuel.
  pub new_queue-Ends :
      (bytes : List ℕ) (timeout max : ℕ) → Ends (new_queue from_bytes clock bytes timeout max)
  unfolding new_queue
  new_queue-Ends bytes timeout max =
      >>=-Ends _ _
        (replay-Ends (apply_record from_bytes clock) apply_record-Ends bytes
          (empty_queue timeout max))
        (λ q. tt)
