-- ===== src/LoadTest/Conservation/Verdict.antt =====
-- The verdict of a run (cmd/loadtest/workload.go: startProducers, run).
use gojobs.Prelude.{
  ℕ, ◌+◌, ◌-◌, ◌^◌, ◌<◌, ◌≤◌, ◌≡◌, refl, true, false, Option, some, none, List, [], ◌∷◌, length,
  ◌==◌, arith,
}
use gojobs.Prelude.Int.{pos, minus}
use gojobs.Prelude.Map.{Map, bytes_key, nat_eq, lookup}
use gojobs.Prelude.Map.Size.{has, is_some, length-le}
use gojobs.Queue.State.{empty_queue}
use gojobs.Queue.DeadLetter.{dlq_len}
use gojobs.Queue.Durability.Recovered.{IsSound-empty}
use gojobs.Queue.Ledger.{held}
use gojobs.LoadTest.Store.{landed, distinct, new_effect_store}
use gojobs.LoadTest.Workload.{Load, conclude}
use gojobs.LoadTest.World.{
  World, new_world, Turn, produces, takes, handles, finishes, sweeps, requeues, Turns, here, next,
}
use gojobs.LoadTest.Conservation.{IsConserved}
use gojobs.LoadTest.Conservation.Turns.{
  take_task-IsConserved, handle-IsConserved, finish-IsConserved, sweep-IsConserved,
  requeue-IsConserved,
}
use gojobs.LoadTest.Conservation.Production.{produce-IsConserved}

Turn-IsConserved : {w w' : World} → IsConserved w → Turn w w' → IsConserved w'
Turn-IsConserved {w} h (produces id syncs uuid now running fits fresh unused e) =
    rw e (produce-IsConserved w h id uuid now fits fresh unused syncs)
Turn-IsConserved {w} h (takes c now here_c e) = rw e (take_task-IsConserved w h c now)
Turn-IsConserved {w} h (handles c p fails crashes env here_c clock e) =
    rw e (handle-IsConserved w h c p (rw here_c at (h.hands c)) fails crashes env clock)
Turn-IsConserved {w} h (finishes c p syncs here_c e) =
    rw e (finish-IsConserved w h c p syncs here_c)
Turn-IsConserved {w} h (sweeps env id clock e) = rw e (sweep-IsConserved w h env id clock)
Turn-IsConserved {w} h (requeues syncs id e) = rw e (requeue-IsConserved w h syncs id)

new_world-IsConserved : (timeout max : ℕ) → max + 1 < 2 ^ 32 → IsConserved (new_world timeout max)
unfolding empty_queue lookup new_effect_store
new_world-IsConserved timeout max room = record {
  sound = IsSound-empty timeout max room;
  booked = record {
    index_map = tt;
    dlq_map = tt;
    keys_map = tt;
    one_to_one = λ k j id e f. cc;
    ready_known = λ p e. absurd (omega arith);
    index_known = λ id p e. cc;
    dlq_known = λ id p e. cc;
  };
  store_map = tt;
  tasks = refl;
  keys = refl;
  settled = λ k id e. cc;
  produced_only = λ k e. cc;
  numbered = λ id seq e. cc;
  no_shortfall = refl;
  hands = λ c. tt;
}

pub Turns-IsConserved :
    (timeout max : ℕ) (w : World)
    → max + 1 < 2 ^ 32
    → Turns (new_world timeout max) w
    → IsConserved w
Turns-IsConserved timeout max w room here = new_world-IsConserved timeout max room
Turns-IsConserved timeout max w room (next r t) =
    Turn-IsConserved (Turns-IsConserved timeout max _ room r) t

-- What the counters of a run say of its tasks and effects.
pub record Verdict (l : Load) : Type 0 where
  pub passes : (conclude l).pass ≡ (l.stats.acked == l.stats.produced)
  pub at_most_once : (conclude l).distinct_effects ≤ l.stats.produced
  pub shortfall :
      (n : ℕ) × ((conclude l).shortfall ≡ pos n)
      × ((conclude l).distinct_effects + n ≡ l.stats.produced)
  pub none_left : (conclude l).pass ≡ true → held l.queue ≡ 0
  pub all_landed :
      (conclude l).pass ≡ true → (k : List ℕ) → landed k l.store ≡ has k l.queue.index_of_idem_keys

empty_map : (m : Map ℕ ℕ) (id : ℕ) → length m ≡ 0 → has id m ≡ false
unfolding lookup
empty_map [] id e = refl
empty_map (x ∷ m) id e = absurd (omega arith)

module _ (w : World) (h : IsConserved w) where
  at_most : length w.load.store.applied ≤ w.load.stats.produced
  at_most = omega (
    arith,
    h.keys,
    length-le w.load.store.applied w.load.queue.index_of_idem_keys h.store_map h.booked.keys_map
        h.produced_only,
  )

  module _ (done : w.load.stats.acked ≡ w.load.stats.produced) where
    nothing_held : held w.load.queue ≡ 0
    nothing_held = omega (arith, h.tasks)

    key_landed :
        (k : List ℕ) (o : Option ℕ)
        → lookup k w.load.queue.index_of_idem_keys ≡ o
        → is_some o ≡ true
        → landed k w.load.store ≡ true
    key_landed k none e f = cc
    key_landed k (some id) e f = grind (
      arith,
      h.settled k id e,
      empty_map w.load.queue.index id (omega (arith, nothing_held)),
      empty_map w.load.queue.dlq id (omega (arith, nothing_held)),
    )

    all_distinct : length w.load.store.applied ≡ w.load.stats.produced
    all_distinct = omega (
      arith,
      at_most,
      h.keys,
      length-le w.load.queue.index_of_idem_keys w.load.store.applied h.booked.keys_map h.store_map
          (λ k e. key_landed k _ refl e),
    )

  passed-done : (conclude w.load).pass ≡ true → w.load.stats.acked ≡ w.load.stats.produced
  unfolding conclude
  passed-done e = ground (arith, e)

  IsConserved-Verdict : Verdict w.load
  unfolding conclude distinct dlq_len minus
  IsConserved-Verdict = record {
    passes = grind (arith, all_distinct, nothing_held);
    at_most_once = at_most;
    shortfall = (
      w.load.stats.produced - distinct w.load.store,
      grind (arith, h.no_shortfall, all_distinct, at_most),
      omega (arith, at_most),
    );
    none_left = λ e. nothing_held (passed-done e);
    all_landed = λ e k. grind (arith, key_landed (passed-done e) k, h.produced_only k);
  }

-- After any turns of a run on a new queue: the verdict passes exactly when as many tasks were
-- acknowledged as were produced. No more effects landed than tasks were produced, and the shortfall
-- is the difference. On a pass no task is left, live or dead, and the effects are those of the keys
-- that were produced.
pub verdict :
    (timeout max : ℕ) (w : World)
    → max + 1 < 2 ^ 32
    → Turns (new_world timeout max) w
    → Verdict w.load
verdict timeout max w room r = IsConserved-Verdict w (Turns-IsConserved timeout max w room r)
