-- ===== src/Queue/Lifetime.antt =====
-- The goroutine of the sweeper (internal/queue/queue.go: runSweeper). What its select receives is an
-- argument: ticks, and the stop channel that Close closes.
pub mod Closing
use gojobs.Prelude.{ℕ, ◌+◌, refl, List, [], ◌∷◌}
use gojobs.Prelude.Run.{Run, ok, err, panic, out_of_fuel}
use gojobs.Prelude.Map.{nat_eq, lookup}
use gojobs.Clock.{HasUnixNano}
use gojobs.Queue.State.{Queue, go_on}
use gojobs.Queue.Methods.{Env, sweep_entry, sweeper}
use gojobs.Queue.Durability.Recovered.{Reach, next, sweeps}

-- A tick comes with the order in which the pass visits the leases, and what it finds outside.
pub data Received : Type 0 where
  tick : List ℕ → (ℕ → Env) → Received
  stop_closed : Received

-- The error of a pass is dropped.
unfoldable pub run_sweeper : List Received → Queue → Queue
unfolding sweeper
run_sweeper [] q = q
run_sweeper (tick order envs ∷ events) q = run_sweeper events (sweeper order envs q).1
run_sweeper (stop_closed ∷ events) q = q

-- The clocks that the passes read are ones that the log can hold.
abbrev pub AllClocked : List Received → Type 0
AllClocked [] = Unit
AllClocked (tick order envs ∷ events) = ((i : ℕ) → HasUnixNano (envs i).now) × AllClocked events
AllClocked (stop_closed ∷ events) = AllClocked events

module _ (start : Queue) where
  go_on-Reach :
      (rest : Queue → Run (Unit {0}) × Queue) (a : Run (Unit {0}) × Queue)
      → Reach start a.1
      → ((q : Queue) → Reach start q → Reach start (rest q).1)
      → Reach start (go_on a.0 (λ _. rest) a.1).1
  go_on-Reach rest (ok x, q) h goes_on = goes_on q h
  go_on-Reach rest (err e, q) h goes_on = h
  go_on-Reach rest (panic, q) h goes_on = h
  go_on-Reach rest (out_of_fuel, q) h goes_on = h

  sweeper-Reach :
      (order : List ℕ) (envs : ℕ → Env) (q : Queue)
      → ((i : ℕ) → HasUnixNano (envs i).now)
      → Reach start q
      → Reach start (sweeper order envs q).1
  unfolding sweeper
  sweeper-Reach [] envs q clock r = r
  sweeper-Reach (id ∷ order) envs q clock r =
      go_on-Reach (sweeper order (λ i. envs (1 + i)))
        (sweep_entry (envs 0) id (lookup id q.index_of_inflight) q)
        (next r (sweeps (envs 0) id (clock 0) refl))
        (λ q' h. sweeper-Reach order (λ i. envs (1 + i)) q' (λ i. clock (1 + i)) h)

  -- Everything the goroutine does to a queue is made of the steps of the sweeper, so what holds after
  -- any such steps holds after it.
  pub run_sweeper-Reach :
      (events : List Received) (q : Queue)
      → AllClocked events
      → Reach start q
      → Reach start (run_sweeper events q)
  unfolding run_sweeper
  run_sweeper-Reach [] q clock r = r
  run_sweeper-Reach (tick order envs ∷ events) q clock r =
      run_sweeper-Reach events (sweeper order envs q).1 clock.1
        (sweeper-Reach order envs q clock.0 r)
  run_sweeper-Reach (stop_closed ∷ events) q clock r = r
