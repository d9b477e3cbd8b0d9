-- ===== src/Examples/Lifetimes.antt =====
-- internal/queue/queue.go and cmd/taskq: what goroutines and the demo do to a queue.
use gojobs.Prelude.{◌+◌, ◌*◌, refl, true, false, ◌≡◌, [], ◌∷◌, arith}
use gojobs.Clock.{second}
use gojobs.Prelude.Map.{nat_eq, bytes_key, lookup}
use gojobs.Prelude.Run.{ok}
use gojobs.Queue.State.{empty_queue}
use gojobs.Queue.Spec.{view}
use gojobs.Queue.Durability.Recovered.{Reach, here, next, enqueues, dequeues}
use gojobs.Queue.Tracking.{IsTracked}
use gojobs.Queue.Tracking.Calls.{AllNew, Reach-IsTracked}
use gojobs.Queue.Places.Always.{AllAnswer, InOnePlace, Reach-InOnePlace}
use gojobs.Wal.Writer.{open_wal}
use gojobs.Wal.Channel.{Request, send}
use gojobs.Wal.Channel.Answers.{sent}
use gojobs.Queue.Lifetime.Closing
use gojobs.Queue.Lifetime.Closing.{Life, LifeSteps, open_life, close_signals, close-Orderly}
use gojobs.Demo.{drain_all}
use gojobs.Demo.Ends.{IsDrained, drain_all-IsDrained}
use gojobs.Examples.Data.{noon, first_task}
use gojobs.Examples.Queues.{start, after_enqueue, after_dequeue}

abbrev arrival : Reach start after_dequeue
unfolding empty_queue view lookup
arrival =
    next
      (next here (
        enqueues true first_task.payload first_task.idempotency_key first_task.id noon (omega arith)
          (refl, refl) refl))
      (dequeues (noon + second) refl)

arrival-AllNew : AllNew arrival
unfolding empty_queue arrival
arrival-AllNew = ((tt, λ p h. absurd (omega arith)), tt)

Reach-IsTracked_example : IsTracked after_dequeue
Reach-IsTracked_example =
    Reach-IsTracked (30 * second) 3 after_dequeue arrival (omega arith) arrival-AllNew

arrival-AllAnswer : AllAnswer arrival
unfolding empty_queue arrival
arrival-AllAnswer = ((tt, tt), tt)

Reach-InOnePlace_example : InOnePlace after_dequeue
Reach-InOnePlace_example =
    Reach-InOnePlace (30 * second) 3 after_dequeue arrival (omega arith) arrival-AllNew
      arrival-AllAnswer

abbrev request : Request
request = record { number = 0; record_bytes = 3 ∷ [] }

-- Close has closed the stop channel, and the sweeper has not returned yet.
abbrev signalled : Life
unfolding open_life
signalled = record (open_life (open_wal [])) { stopping = true; closer = Closing.stop_signalled }

signalled_steps : LifeSteps (open_life (open_wal [])) signalled
unfolding open_life signalled
signalled_steps = Closing.next Closing.here (close_signals refl refl)

close-Orderly_example :
    (signalled.sweeping ≡ true
      → send request signalled.channel ≡ ok (sent request signalled.channel))
    × (signalled.channel.closed ≡ true → signalled.sweeping ≡ false)
close-Orderly_example = close-Orderly (open_wal []) signalled request signalled_steps

drain_all-IsDrained_example :
    IsDrained (λ i. noon) (drain_all (λ i. true) (λ i. noon) after_enqueue)
drain_all-IsDrained_example = drain_all-IsDrained (λ i. true) (λ i. noon) after_enqueue
