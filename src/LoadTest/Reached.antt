-- ===== src/LoadTest/Reached.antt =====
-- The calls of the drain as turns (cmd/loadtest/workload.go: drain).
use gojobs.Prelude.{ℕ, ◌≡◌, refl, ap, ◌∙◌, Bool, true, false, arith}
use gojobs.Prelude.Map.{nat_eq, lookup}
use gojobs.Clock.{HasUnixNano, unix_epoch}
use gojobs.Queue.State.{Queue}
use gojobs.Queue.Methods.{Env, sweep_entry}
use gojobs.Queue.DeadLetter.{requeue_dead}
use gojobs.LoadTest.Workload.{
  Load, Stage, looking, holding, effected, take_task, handle, finish, apply_task,
}
use gojobs.LoadTest.World.{
  World, after_stage, with_queue, takes, handles, finishes, sweeps, requeues, Turns, next,
}

-- A state that turns lead to, with these contents, in which consumer `c` is at `st`.
pub record Reached (start : World) (c : ℕ) (st : Stage) (l : Load) : Type 0 where
  pub world : World
  pub turns : Turns start world
  pub load : world.load ≡ l
  pub stage : world.consumers c ≡ st

-- A clock that the log can hold; nothing reads it where no Retry is called.
abbrev still : Env
still = record { syncs = true; now = unix_epoch; scale = λ c. 0 }

module _ (start : World) (c : ℕ) where
  at_self : (w : World) (r : Stage × Load) → (after_stage c w r).consumers c ≡ r.0
  at_self w r = ground arith

  pub took :
      (now : ℕ) (l : Load)
      → Reached start c looking l
      → Reached start c (take_task now l).0 (take_task now l).1
  took now l r = record {
    world = after_stage c r.world (take_task now r.world.load);
    turns = next r.turns (takes c now r.stage refl);
    load = ap (λ l. (take_task now l).1) r.load;
    stage = at_self r.world (take_task now r.world.load) ∙ ap (λ l. (take_task now l).0) r.load;
  }

  module _ (p : ℕ) where
    pub applied :
        (l : Load) → Reached start c (holding p) l → Reached start c (effected p) (apply_task p l)
    applied l r = record {
      world = after_stage c r.world (handle false false still p r.world.load);
      turns = next r.turns (handles c p false false still r.stage (omega arith) refl);
      load = unfold handle in ap (apply_task p) r.load;
      stage = unfold handle in at_self r.world (effected p, apply_task p r.world.load);
    }

    pub finished_turn :
        (syncs : Bool) (l : Load)
        → Reached start c (effected p) l
        → Reached start c (finish syncs p l).0 (finish syncs p l).1
    finished_turn syncs l r = record {
      world = after_stage c r.world (finish syncs p r.world.load);
      turns = next r.turns (finishes c p syncs r.stage refl);
      load = ap (λ l. (finish syncs p l).1) r.load;
      stage = at_self r.world (finish syncs p r.world.load) ∙ ap (λ l. (finish syncs p l).0) r.load;
    }

  abbrev pub with_load_queue : Queue → Load → Load
  with_load_queue q l = record l { queue = q }

  pub requeued :
      (syncs : Bool) (id : ℕ) (st : Stage) (l : Load)
      → Reached start c st l
      → Reached start c st (with_load_queue (requeue_dead syncs id l.queue).1 l)
  requeued syncs id st l r = record {
    world = with_queue (requeue_dead syncs id r.world.load.queue).1 r.world;
    turns = next r.turns (requeues syncs id refl);
    load = ap (λ l. with_load_queue (requeue_dead syncs id l.queue).1 l) r.load;
    stage = r.stage;
  }

  pub swept :
      (env : Env) (id : ℕ) (st : Stage) (l : Load)
      → HasUnixNano env.now
      → Reached start c st l
      → Reached start c st
          (with_load_queue (sweep_entry env id (lookup id l.queue.index_of_inflight) l.queue).1 l)
  swept env id st l clock r = record {
    world =
        with_queue
          (sweep_entry env id (lookup id r.world.load.queue.index_of_inflight) r.world.load.queue).1
          r.world;
    turns = next r.turns (sweeps env id clock refl);
    load =
        ap
          (λ l.
            with_load_queue (sweep_entry env id (lookup id l.queue.index_of_inflight) l.queue).1 l)
          r.load;
    stage = r.stage;
  }
