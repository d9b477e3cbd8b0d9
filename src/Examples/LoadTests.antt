-- ===== src/Examples/LoadTests.antt =====
-- cmd/loadtest: a run in which one task is produced, taken and acknowledged.
use gojobs.Prelude.{
  ℕ, ◌+◌, ◌*◌, ◌/◌, ◌≤◌, ◌≡◌, ◌↔◌, refl, true, false, Option, none, List, [], ◌∷◌, length, arith,
}
use gojobs.Prelude.Int.{ℤ, pos}
use gojobs.Prelude.Run.{ok}
use gojobs.Prelude.Map.{bytes_key, lookup, put}
use gojobs.Clock.{second}
use gojobs.Prelude.Array.{SameItems}
use gojobs.Queue.State.{empty_queue}
use gojobs.Queue.Methods.{enqueue, dequeue, ack}
use gojobs.Queue.Spec.{view}
use gojobs.LoadTest.Keys.{decimal, producer_key, producer_key-injective}
use gojobs.LoadTest.Workload.{holding, effected, produce, take_task, handle, finish, conclude}
use gojobs.LoadTest.World.{
  World, new_world, after_produce, after_stage, Turns, here, next, produces, takes, handles,
  finishes,
}
use gojobs.LoadTest.Conservation.Verdict.{Verdict, verdict}
use gojobs.LoadTest.Drain
use gojobs.Queue.DeadLetter.{list_dead_tasks}
use gojobs.LoadTest.Drain.{
  check, Draining, DrainSteps, goes_on, drain_step, drain, completed, returned,
}
use gojobs.LoadTest.Drain.Outcome.{Concluded, drain-Concluded}
use gojobs.LoadTest.Metrics.{flatten, OpMetrics, Shares, summarize}
use gojobs.LoadTest.Metrics.Order.{summarize-grouping, summarize-ascending}
use gojobs.LoadTest.Settings.{exit_code}
use gojobs.LoadTest.Results.{GitCommand, RunMetrics, build_record, marks, ok_mark}
use gojobs.LoadTest.Results.Report.{marks-exit_code, build_record-deduped, all_deliveries}
use gojobs.Examples.Data.{noon, first_task}
use gojobs.Examples.Queues.{env}
use gojobs.Examples.Programs.{tenths}

abbrev fresh_world : World
fresh_world = new_world (30 * second) 3

abbrev with_task : World
with_task = after_produce 0 fresh_world (produce true 0 0 first_task.id noon fresh_world.load)

abbrev in_hand : World
in_hand = after_stage 0 with_task (take_task (noon + second) with_task.load)

abbrev with_effect : World
with_effect = after_stage 0 in_hand (handle false false env 0 in_hand.load)

abbrev with_ack : World
with_ack = after_stage 0 with_effect (finish true 0 with_effect.load)

to_task : Turns fresh_world with_task
unfolding empty_queue view lookup producer_key decimal
to_task =
    next here (produces 0 true first_task.id noon refl (omega arith) (refl, refl) (λ k e. cc) refl)

to_in_hand : Turns fresh_world in_hand
to_in_hand = next to_task (takes 0 (noon + second) refl refl)

in_hand_holds : in_hand.consumers 0 ≡ holding 0
unfolding take_task produce enqueue dequeue empty_queue producer_key lookup put
in_hand_holds = refl

effect_landed : with_effect.consumers 0 ≡ effected 0
unfolding handle
effect_landed = refl

to_effect : Turns fresh_world with_effect
to_effect = next to_in_hand (handles 0 0 false false env in_hand_holds (omega arith) refl)

to_ack : Turns fresh_world with_ack
to_ack = next to_effect (finishes 0 0 true effect_landed refl)

verdict_example : Verdict with_ack.load
verdict_example = verdict (30 * second) 3 with_ack (omega arith) to_ack

-- The calls of drain at these times, with nothing between and a log that takes every record.
abbrev run_drain : List ℕ → Draining → Draining
run_drain [] d = d
run_drain (now ∷ times) d =
    run_drain times (drain_step (noon + 60 * second) now true d.stage d.load)

run_drain-DrainSteps :
    (start : Draining) (times : List ℕ) (d : Draining)
    → DrainSteps (noon + 60 * second) start d
    → DrainSteps (noon + 60 * second) start (run_drain times d)
run_drain-DrainSteps start [] d steps = steps
run_drain-DrainSteps start (now ∷ times) d steps =
    run_drain-DrainSteps start times _ (Drain.next steps (goes_on now true refl))

-- The task is taken, its effect lands, and it is acknowledged; then nothing is ready, and nothing is dead.
abbrev eight_times : List ℕ
eight_times = let now = noon + second in now ∷ now ∷ now ∷ now ∷ now ∷ now ∷ now ∷ now ∷ []

abbrev drained : Draining
drained = run_drain eight_times (drain with_task.load)

drain_ends : drained.stage ≡ returned completed
unfolding drain_step check take_task produce enqueue dequeue empty_queue producer_key lookup put
    finish ack list_dead_tasks
drain_ends = refl

drain-Concluded_example : Concluded completed drained.load × Verdict drained.load
drain-Concluded_example =
    drain-Concluded (30 * second) 3 0 (noon + 60 * second) with_task drained completed (omega arith)
      to_task refl
      (run_drain-DrainSteps (drain with_task.load) eight_times (drain with_task.load) Drain.here)
      drain_ends

abbrev producer : ℕ
producer = 3

abbrev rounds : ℕ
rounds = 12

producer_key-injective_example : (producer ≡ producer) × (rounds ≡ rounds)
producer_key-injective_example = producer_key-injective producer rounds producer rounds refl

-- Halves, and rougher shares than 95 and 99 of a hundred.
abbrev shares : Shares
shares = record { half = λ n. n / 2; most = λ n. n; nearly_all = λ n. n }

abbrev samples : List (List ℕ)
samples = (30 ∷ 10 ∷ []) ∷ (20 ∷ []) ∷ []

summarize-ascending_example :
    (m : OpMetrics) × (summarize shares samples second ≡ ok m)
    × (m.samples ≡ length (flatten samples))
    × (m.p50 ≤ m.p95)
    × (m.p95 ≤ m.p99)
    × (m.samples ≡ 0 → m.p99 ≡ 0)
summarize-ascending_example =
    summarize-ascending shares samples second (λ n. omega arith) (λ n. omega arith)

abbrev regrouped : List (List ℕ)
regrouped = (20 ∷ 30 ∷ []) ∷ [] ∷ (10 ∷ []) ∷ []

same_samples : SameItems (flatten samples) (flatten regrouped)
unfolding flatten
same_samples n = ground arith

summarize-grouping_example : summarize shares samples second ≡ summarize shares regrouped second
summarize-grouping_example = summarize-grouping shares samples regrouped second same_samples

marks-exit_code_example :
    (marks (conclude with_ack.load) ≡ ok_mark true ∷ ok_mark true ∷ ok_mark true ∷ [])
    ↔ (exit_code (conclude with_ack.load) ≡ 0)
marks-exit_code_example = marks-exit_code with_ack.load

abbrev no_git : GitCommand → Option (List ℕ)
no_git command = none

abbrev hidden : ℤ → List ℕ
hidden d = []

abbrev summary : OpMetrics
summary = record {
  samples = 1;
  throughput = record { over = 1; under = 1 };
  p50 = 2000;
  p95 = 2000;
  p99 = 2000;
}

abbrev metrics : RunMetrics
metrics = record { window = second; enqueue = summary; dequeue = summary; ack = summary }

build_record-deduped_example :
    (n : ℕ) × ((build_record hidden no_git [] tenths
        (conclude with_ack.load)
        metrics).counters.deduped_reapplies
      ≡ pos n)
    × ((build_record hidden no_git [] tenths
            (conclude with_ack.load)
            metrics).counters.distinct_effects
          + n
        ≡ all_deliveries to_ack)
build_record-deduped_example =
    build_record-deduped hidden no_git (30 * second) 3 with_ack [] tenths metrics to_ack
