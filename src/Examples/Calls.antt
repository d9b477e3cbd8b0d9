-- ===== src/Examples/Calls.antt =====
-- internal/queue/queue.go, one call at a time
use gojobs.Prelude.{ℕ, ◌+◌, ◌*◌, ◌≡◌, refl, true, [], ◌∷◌, ◌++◌, arith, ◌==◌, if◌then◌else◌}
use gojobs.Prelude.Run.{ok}
use gojobs.Prelude.Map.{nat_eq, bytes_key, lookup, put}
use gojobs.Clock.{second}
use gojobs.Task.{Task, zero_task}
use gojobs.ReadyHeap.{heap_push}
use gojobs.ReadyHeap.Order.{IsHeap}
use gojobs.ReadyHeap.Root.{heap_push-IsHeap}
use gojobs.Wal.Replay.{frames}
use gojobs.Wal.Torn.{EndsLog-nil}
use gojobs.Queue.State.{Queue, empty_queue}
use gojobs.Queue.Spec.{view}
use gojobs.Queue.Methods.{enqueue, dequeue, retry}
use gojobs.Prelude.Array.{SameItems}
use gojobs.Prelude.Map.Size.{IsMap}
use gojobs.ReadyHeap.Earliest.{RootsEarliest, heap_push-RootsEarliest}
use gojobs.Wal.Replay.{Ends}
use gojobs.Queue.Recovery.Termination.{new_queue-Ends}
use gojobs.LoadTest.Store.{new_effect_store}
use gojobs.LoadTest.Workload.{Load, no_stats}
use gojobs.Queue.DeadLetter.{list_dead_tasks}
use gojobs.Queue.DeadLetter.Listing.{Lists, list_dead_tasks-Lists}
use gojobs.Queue.Recovery.{new_queue}
use gojobs.Queue.Delivery.{Delivers, dequeue-Delivers, new_queue-IsHeap}
use gojobs.Queue.Idempotency.{enqueue-repeats}
use gojobs.Queue.FailClosed.{FailsClosed, fails_closed}
use gojobs.Queue.Retries.{Retried, retry-Retried}
use gojobs.Queue.Durability.Recovered.{here, next, dequeues, retries, IsSound-empty, recovery}
use gojobs.Examples.Data.{from_sixteen, from_sixteen-ReadsUuid, noon, first_task}
use gojobs.Examples.Queues.{
  start, after_dequeue, env, after_retry, history, history-AllTaken, short,
}

-- Two tasks that failed, the second one later, and that are due in the other order.
abbrev cells : ℕ → Task
cells p =
    if p == 0
    then record zero_task { id = 1; available_at = noon + second; failed_at = noon }
    else record zero_task { id = 2; available_at = noon; failed_at = noon + 1 }

single : IsHeap cells (0 ∷ [])
single k kp kn kl = absurd (omega arith)

heap_push-RootsEarliest_example :
    IsHeap cells (heap_push cells (0 ∷ []) 1)
    × SameItems (1 ∷ 0 ∷ []) (heap_push cells (0 ∷ []) 1)
    × RootsEarliest cells (heap_push cells (0 ∷ []) 1)
heap_push-RootsEarliest_example = heap_push-RootsEarliest cells (0 ∷ []) 1 single

abbrev two_ready : Queue
two_ready = record start { cell = cells; ready = 1 ∷ 0 ∷ [] }

two_ready-IsHeap : IsHeap two_ready.cell two_ready.ready
unfolding heap_push
two_ready-IsHeap = heap_push-IsHeap cells (0 ∷ []) 1 single

dequeue-Delivers_example : Delivers noon two_ready (dequeue noon two_ready)
dequeue-Delivers_example = dequeue-Delivers noon two_ready two_ready-IsHeap

abbrev two_dead : Queue
two_dead = record start { cell = cells; next = 2; dlq = (1, 0) ∷ (2, 1) ∷ [] }

two_dead-IsMap : IsMap two_dead.dlq
unfolding lookup
two_dead-IsMap = (refl, (refl, tt))

list_dead_tasks-Lists_example : Lists two_dead (list_dead_tasks two_dead)
list_dead_tasks-Lists_example = list_dead_tasks-Lists two_dead two_dead-IsMap

abbrev dead_load : Load
dead_load = record { queue = two_dead; store = new_effect_store; stats = no_stats }

new_queue-Ends_example : Ends (new_queue from_sixteen (λ _. noon) (0 ∷ 0 ∷ 0 ∷ []) 5 0)
new_queue-Ends_example = new_queue-Ends from_sixteen (λ _. noon) (0 ∷ 0 ∷ 0 ∷ []) 5 0

fails_closed_example : FailsClosed after_dequeue
fails_closed_example = fails_closed after_dequeue

retry-Retried_example :
    Retried env first_task.id 0 after_dequeue (retry env first_task.id after_dequeue)
unfolding empty_queue enqueue dequeue lookup put
retry-Retried_example = retry-Retried env first_task.id 0 after_dequeue refl refl λ c h. omega arith

-- An ID and a payload of its own, but the key of the first task.
enqueue-repeats_example :
    enqueue true (120 ∷ []) first_task.idempotency_key 77 (noon + second) after_retry
    ≡ (ok first_task.id, after_retry)
unfolding empty_queue enqueue view lookup
enqueue-repeats_example =
    enqueue-repeats true first_task.payload first_task.idempotency_key first_task.id noon start
      after_retry first_task.id true (120 ∷ []) 77 (noon + second) refl
      (IsSound-empty (30 * second) 3 (omega arith)) (omega arith) (refl, refl) refl
      (next (next here (dequeues (noon + second) refl))
        (retries env first_task.id (omega arith) refl))

recovered :
    (r : Queue) × (new_queue from_sixteen (λ _. noon) (frames after_retry.log ++ []) 5 0 ≡ ok r)
    × (view r ≡ view after_retry)
recovered =
    recovery from_sixteen (λ _. noon) (30 * second) 3 5 0 after_retry [] from_sixteen-ReadsUuid
      (omega arith) history history-AllTaken short EndsLog-nil

new_queue-IsHeap_example : IsHeap recovered.0.cell recovered.0.ready
new_queue-IsHeap_example =
    new_queue-IsHeap from_sixteen (λ _. noon) (frames after_retry.log ++ []) 5 0 recovered.0
      recovered.1
