-- ===== src/LoadTest/Drain/Outcome.antt =====
-- What the end of the drain says of the run (cmd/loadtest/workload.go: drain, run).
use gojobs.Prelude.{
  ℕ, ◌+◌, ◌^◌, ◌<◌, ◌≤◌, ◌≡◌, refl, sym, ◌∙◌, Bool, true, false, [], ◌∷◌, ltb, arith, Bool-cases,
  inl, inr,
}
use gojobs.Prelude.Map.{nat_eq, lookup}
use gojobs.Clock.{before}
use gojobs.Queue.Methods.{sweep_entry}
use gojobs.LoadTest.Workload.{
  Load, Stage, looking, holding, effected, stopped, take_task, finish, conclude,
}
use gojobs.LoadTest.World.{World, new_world, Turns}
use gojobs.LoadTest.Conservation.Verdict.{Verdict, verdict, Turns-IsConserved}
use gojobs.LoadTest.Reached.{Reached, took, applied, finished_turn, requeued, swept}
use gojobs.LoadTest.Drain.{
  Ending, completed, timed_out, call_failed, DrainStage, checking, taking, in_hand, landed_in_hand,
  listing, requeueing, returned, Draining, check, after_take, after_ack, drain_step, DrainStep,
  goes_on, sweeps_one, DrainSteps, here, next, drain,
}

-- What the counters say where drain has returned.
abbrev CountersSay : Ending → Load → Type 0
CountersSay completed l = ltb l.stats.acked l.stats.produced ≡ false
CountersSay timed_out l = ltb l.stats.acked l.stats.produced ≡ true
CountersSay call_failed l = Unit

module _ (start : World) (c : ℕ) where
  -- The contents are those that turns of consumer `c` and of the sweeper lead to.
  abbrev Stands : DrainStage → Load → Type 0
  Stands (in_hand p) l = Reached start c (holding p) l
  Stands (landed_in_hand p) l = Reached start c (effected p) l
  Stands (returned ending) l = (st : Stage) × (Reached start c st l × CountersSay ending l)
  Stands _ l = Reached start c looking l

  check-Stands :
      (deadline now : ℕ) (l : Load) → Reached start c looking l → Stands (check deadline now l) l
  unfolding check
  check-Stands deadline now l r = elim (Bool-cases (ltb l.stats.acked l.stats.produced)) [
    | inl e ↦ elim (Bool-cases (before now deadline)) [
      | inl early ↦ rw (e, early) r
      | inr late ↦ rw (e, late) (looking, (r, e))
    ]
    | inr e ↦ rw e (looking, (r, e))
  ]

  after_take-Stands : (st : Stage) (l : Load) → Reached start c st l → Stands (after_take st) l
  after_take-Stands looking l r = r
  after_take-Stands (holding p) l r = r
  after_take-Stands (effected p) l r = (effected p, (r, tt))
  after_take-Stands stopped l r = (stopped, (r, tt))

  after_ack-Stands : (st : Stage) (l : Load) → Reached start c st l → Stands (after_ack st) l
  after_ack-Stands looking l r = r
  after_ack-Stands (holding p) l r = (holding p, (r, tt))
  after_ack-Stands (effected p) l r = (effected p, (r, tt))
  after_ack-Stands stopped l r = (stopped, (r, tt))

  drain_step-Stands :
      (deadline now : ℕ) (syncs : Bool) (stage : DrainStage) (l : Load)
      → Stands stage l
      → let d = drain_step deadline now syncs stage l in Stands d.stage d.load
  unfolding drain_step
  drain_step-Stands deadline now syncs checking l r = check-Stands deadline now l r
  drain_step-Stands deadline now syncs taking l r =
      after_take-Stands (take_task now l).0 (take_task now l).1 (took start c now l r)
  drain_step-Stands deadline now syncs (in_hand p) l r = applied start c p l r
  drain_step-Stands deadline now syncs (landed_in_hand p) l r =
      after_ack-Stands (finish syncs p l).0 (finish syncs p l).1 (finished_turn start c p syncs l r)
  drain_step-Stands deadline now syncs listing l r = r
  drain_step-Stands deadline now syncs (requeueing []) l r = r
  drain_step-Stands deadline now syncs (requeueing (t ∷ ts)) l r =
      requeued start c syncs t.id looking l r
  drain_step-Stands deadline now syncs (returned ending) l r = r

  DrainStep-Stands :
      (deadline : ℕ) {d d' : Draining}
      → Stands d.stage d.load
      → DrainStep deadline d d'
      → Stands d'.stage d'.load
  DrainStep-Stands deadline {d} r (goes_on now syncs e) =
      rw e (drain_step-Stands deadline now syncs d.stage d.load r)
  DrainStep-Stands deadline {d} r (sweeps_one env id clock e) = rw e (by_stage d.stage r)
    where
      by_stage :
          (stage : DrainStage)
          → Stands stage d.load
          → Stands stage (record (d.load) {
            queue = (sweep_entry env id (lookup id d.load.queue.index_of_inflight) d.load.queue).1;
          })
      by_stage checking r = swept start c env id looking d.load clock r
      by_stage taking r = swept start c env id looking d.load clock r
      by_stage (in_hand p) r = swept start c env id (holding p) d.load clock r
      by_stage (landed_in_hand p) r = swept start c env id (effected p) d.load clock r
      by_stage listing r = swept start c env id looking d.load clock r
      by_stage (requeueing ts) r = swept start c env id looking d.load clock r
      by_stage (returned completed) (st, (r, say)) =
          (st, (swept start c env id st d.load clock r, say))
      by_stage (returned timed_out) (st, (r, say)) =
          (st, (swept start c env id st d.load clock r, say))
      by_stage (returned call_failed) (st, (r, say)) =
          (st, (swept start c env id st d.load clock r, tt))

  DrainSteps-Stands :
      (deadline : ℕ) (l : Load) (d : Draining)
      → Reached start c looking l
      → DrainSteps deadline (drain l) d
      → Stands d.stage d.load
  DrainSteps-Stands deadline l d r here = r
  DrainSteps-Stands deadline l d r (next steps s) =
      DrainStep-Stands deadline (DrainSteps-Stands deadline l _ r steps) s

-- What the ending of the drain comes to.
abbrev pub Concluded : Ending → Load → Type 0
Concluded completed l = (conclude l).pass ≡ true
Concluded timed_out l = (conclude l).pass ≡ false
Concluded call_failed l = Unit

concluded :
    (l : Load) (ending : Ending)
    → CountersSay ending l
    → l.stats.acked ≤ l.stats.produced
    → Verdict l
    → Concluded ending l
concluded l completed say known v = v.passes ∙ ground (arith, say, known)
concluded l timed_out say known v = v.passes ∙ ground (arith, say)
concluded l call_failed say known v = tt

-- A run on a new queue: any turns of the load window, then the drain, called by a goroutine with no task
-- in hand, with the sweeper between any two of its calls. Where drain has returned because every
-- produced task is acknowledged, the run passes; where it has returned because of its deadline, the
-- run fails; and in each case the verdict passes exactly when as many tasks were acknowledged as were
-- produced, no more effects landed than tasks were produced, and on a pass no task is left.
pub drain-Concluded :
    (timeout max c deadline : ℕ) (w : World) (d : Draining) (ending : Ending)
    → max + 1 < 2 ^ 32
    → Turns (new_world timeout max) w
    → w.consumers c ≡ looking
    → DrainSteps deadline (drain w.load) d
    → d.stage ≡ returned ending
    → Concluded ending d.load × Verdict d.load
drain-Concluded timeout max c deadline w d ending room window idle steps e =
    let r : Reached (new_world timeout max) c looking w.load = record {
      world = w;
      turns = window;
      load = refl;
      stage = idle;
    } in
    let (st, (reached, say)) =
      rw e at (DrainSteps-Stands (new_world timeout max) c deadline w.load d r steps) in
    let v : Verdict d.load =
      rw (sym reached.load) (verdict timeout max reached.world room reached.turns) in
    let known : d.load.stats.acked ≤ d.load.stats.produced =
      rw (sym reached.load)
        (omega (arith, (Turns-IsConserved timeout max reached.world room reached.turns).tasks)) in
    (concluded d.load ending say known v, v)
