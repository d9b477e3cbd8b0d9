-- ===== src/LoadTest/Drain/DeadLetters.antt =====
-- The pass of the drain over the dead tasks (cmd/loadtest/workload.go: drain; internal/queue/queue.go:
-- ListDeadTasks, RequeueDead).
use gojobs.Prelude.{ℕ, ◌≡◌, true, some, none, List}
use gojobs.Prelude.Map.{Map, nat_eq, lookup}
use gojobs.Task.{Task}
use gojobs.Queue.State.{Queue}
use gojobs.Queue.DeadLetter.{requeue_dead}
use gojobs.Queue.DeadLetter.Listing.{IsIn}
use gojobs.LoadTest.Drain.{checking, Draining, DrainSteps}

-- What RequeueDead does to the maps, where the log takes its record.
module _ (q : Queue) (id j : ℕ) where
  abbrev after : Queue
  unfolding requeue_dead
  after = (requeue_dead true id q).1

-- Each dead task is one of these.
abbrev Covers : List Task → Queue → Type 0
Covers ts q = (j p : ℕ) → lookup j q.dlq ≡ some p → (t : Task) × (IsIn t ts × (t.id ≡ j))

-- No task is dead any more, and those that were are live.
pub record Replayed (q q' : Queue) : Type 0 where
  pub none_left : (id : ℕ) → lookup id q'.dlq ≡ none
  pub live_again : (id p : ℕ) → lookup id q.dlq ≡ some p → lookup id q'.index ≡ some p
  pub kept :
      (id p : ℕ) → lookup id q.dlq ≡ none → lookup id q.index ≡ some p → lookup id q'.index ≡ some p

module _ (deadline : ℕ) (start : Draining) where
  -- The pass from here ends at the head of the loop.
  record Passed (q : Queue) : Type 0 where
    last : Draining
    steps : DrainSteps deadline start last
    at_head : last.stage ≡ checking
    replayed : Replayed q last.load.queue
