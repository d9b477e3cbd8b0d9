-- ===== src/LoadTest/Drain.antt =====
-- The drain of a run (cmd/loadtest/workload.go: drain), call by call, beside the sweeper of the queue,
-- which may come between any two calls. The sleep is left out: a step may come at any time.
pub mod Outcome
pub mod DeadLetters
use gojobs.Prelude.{ℕ, Bool, List, [], ◌∷◌, ◌≡◌, ltb, if◌then◌else◌}
use gojobs.Prelude.Map.{nat_eq, lookup}
use gojobs.Clock.{HasUnixNano, before}
use gojobs.Task.{Task}
use gojobs.Queue.Methods.{Env, sweep_entry}
use gojobs.Queue.DeadLetter.{list_dead_tasks, requeue_dead}
use gojobs.LoadTest.Workload.{
  Load, Stage, looking, holding, effected, stopped, take_task, apply_task, finish,
}

-- Why drain returned: every task is acknowledged, the deadline has passed, or a call failed.
pub data Ending : Type 0 where
  completed timed_out call_failed : Ending

-- Where drain stands: at the head of its loop, before Dequeue, with a task before and after its effect,
-- before ListDeadTasks, or with dead tasks that are still to be requeued.
pub data DrainStage : Type 0 where
  checking : DrainStage
  taking : DrainStage
  in_hand : ℕ → DrainStage
  landed_in_hand : ℕ → DrainStage
  listing : DrainStage
  requeueing : List Task → DrainStage
  returned : Ending → DrainStage

pub record Draining : Type 0 where
  pub stage : DrainStage
  pub load : Load

-- The head of the loop, with the deadline and the time.
unfoldable pub check : ℕ → ℕ → Load → DrainStage
check deadline now l =
    if ltb l.stats.acked l.stats.produced
    then if before now deadline then taking else returned timed_out
    else returned completed

-- What follows Dequeue.
abbrev pub after_take : Stage → DrainStage
after_take looking = listing
after_take (holding p) = in_hand p
after_take _ = returned call_failed

-- What follows Ack.
abbrev pub after_ack : Stage → DrainStage
after_ack looking = taking
after_ack _ = returned call_failed

-- The next call of drain. `now` is what the clock says, and `syncs` what the log answers.
unfoldable pub drain_step : ℕ → ℕ → Bool → DrainStage → Load → Draining
unfolding check take_task finish list_dead_tasks requeue_dead
drain_step deadline now syncs checking l = record { stage = check deadline now l; load = l }
drain_step deadline now syncs taking l =
    let (st, l') = take_task now l in record { stage = after_take st; load = l' }
drain_step deadline now syncs (in_hand p) l = record {
  stage = landed_in_hand p;
  load = apply_task p l;
}
drain_step deadline now syncs (landed_in_hand p) l =
    let (st, l') = finish syncs p l in record { stage = after_ack st; load = l' }
drain_step deadline now syncs listing l = record {
  stage = requeueing (list_dead_tasks l.queue);
  load = l;
}
drain_step deadline now syncs (requeueing []) l = record { stage = checking; load = l }
drain_step deadline now syncs (requeueing (t ∷ ts)) l = record {
  stage = requeueing ts;
  load = record l { queue = (requeue_dead syncs t.id l.queue).1 };
}
drain_step deadline now syncs (returned ending) l = record { stage = returned ending; load = l }

pub data DrainStep (deadline : ℕ) (d d' : Draining) : Type 0 where
  goes_on :
      (now : ℕ) (syncs : Bool)
      → d' ≡ drain_step deadline now syncs d.stage d.load
      → DrainStep deadline d d'
  sweeps_one :
      (env : Env) (id : ℕ)
      → HasUnixNano env.now
      → d' ≡ record d {
        load = record (d.load) {
          queue = (sweep_entry env id (lookup id d.load.queue.index_of_inflight) d.load.queue).1;
        };
      }
      → DrainStep deadline d d'

pub data DrainSteps (deadline : ℕ) (start : Draining) : Draining → Type 0 where
  here : DrainSteps deadline start start
  next :
      {d d' : Draining}
      → DrainSteps deadline start d
      → DrainStep deadline d d'
      → DrainSteps deadline start d'

-- drain has been called.
abbrev pub drain : Load → Draining
drain l = record { stage = checking; load = l }
