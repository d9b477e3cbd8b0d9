-- ===== src/LoadTest/World.antt =====
-- A run of the load test as turns that its goroutines take in any order (cmd/loadtest/workload.go:
-- startProducers, startConsumers, drain, beside the sweeper of the queue). The goroutine that drains
-- is a consumer whose deliveries never fail, and it requeues dead tasks.
use gojobs.Prelude.{ℕ, suc, ◌≡◌, ◌≢◌, Bool, true, false, some, List, [], ◌∷◌, ◌==◌, if◌then◌else◌}
use gojobs.Prelude.Map.{bytes_key, nat_eq, lookup}
use gojobs.Clock.{HasUnixNano}
use gojobs.Record.Payload.{enqueue}
use gojobs.Record.RoundTrip.{Fits}
use gojobs.Queue.State.{Queue, empty_queue}
use gojobs.Queue.Methods.{Env, sweep_entry}
use gojobs.Queue.DeadLetter.{requeue_dead}
use gojobs.Queue.Spec.{view}
use gojobs.Queue.Recovery.Refines.{Admits}
use gojobs.Queue.Durability.Enqueue.{enqueue_fields}
use gojobs.LoadTest.Store.{new_effect_store}
use gojobs.LoadTest.Keys.{producer_key}
use gojobs.LoadTest.Workload.{
  Load, Stage, looking, holding, effected, produce, take_task, handle, finish, no_stats,
}

-- The number of a producer's next key, and whether it has not returned.
pub record Producer : Type 0 where
  pub seq : ℕ
  pub running : Bool

pub record World : Type 0 where
  pub load : Load
  pub producers : ℕ → Producer
  pub consumers : ℕ → Stage

abbrev pub at {ℓ} : {A : Type ℓ} → (ℕ → A) → ℕ → A → ℕ → A
at f i v j = if i == j then v else f j

-- A queue that is opened on an empty log.
abbrev pub new_world : ℕ → ℕ → World
new_world timeout max = record {
  load = record { queue = empty_queue timeout max; store = new_effect_store; stats = no_stats };
  producers = λ _. record { seq = 0; running = true };
  consumers = λ _. looking;
}

abbrev next_seq : ℕ → Bool → Producer
next_seq seq true = record { seq = suc seq; running = true }
next_seq seq false = record { seq = seq; running = false }

abbrev pub after_produce : ℕ → World → Bool × Load → World
after_produce id w (goes_on, l) = record w {
  load = l;
  producers = at w.producers id (next_seq (w.producers id).seq goes_on);
}

abbrev pub after_stage : ℕ → World → Stage × Load → World
after_stage c w (stage, l) = record w { load = l; consumers = at w.consumers c stage }

abbrev pub with_queue : Queue → World → World
with_queue q w = record w { load = record (w.load) { queue = q } }

-- The ID that uuid.New returns is new: no key leads to it, and no task has it.
pub data Turn (w w' : World) : Type 0 where
  produces :
      (id : ℕ) (syncs : Bool) (uuid now : ℕ)
      → (w.producers id).running ≡ true
      → Fits (enqueue (enqueue_fields (120 ∷ []) (producer_key id (w.producers id).seq) uuid now))
      → Admits
          (view w.load.queue)
          (enqueue (enqueue_fields (120 ∷ []) (producer_key id (w.producers id).seq) uuid now))
      → ((k : List ℕ) → lookup k w.load.queue.index_of_idem_keys ≢ some uuid)
      → w' ≡ after_produce id w (produce syncs id (w.producers id).seq uuid now w.load)
      → Turn w w'
  takes :
      (c now : ℕ)
      → w.consumers c ≡ looking
      → w' ≡ after_stage c w (take_task now w.load)
      → Turn w w'
  handles :
      (c p : ℕ) (fails crashes : Bool) (env : Env)
      → w.consumers c ≡ holding p
      → HasUnixNano env.now
      → w' ≡ after_stage c w (handle fails crashes env p w.load)
      → Turn w w'
  finishes :
      (c p : ℕ) (syncs : Bool)
      → w.consumers c ≡ effected p
      → w' ≡ after_stage c w (finish syncs p w.load)
      → Turn w w'
  sweeps :
      (env : Env) (id : ℕ)
      → HasUnixNano env.now
      → w'
        ≡ with_queue
            (sweep_entry env id (lookup id w.load.queue.index_of_inflight) w.load.queue).1
            w
      → Turn w w'
  requeues :
      (syncs : Bool) (id : ℕ) → w' ≡ with_queue (requeue_dead syncs id w.load.queue).1 w → Turn w w'

pub data Turns (start : World) : World → Type 0 where
  here : Turns start start
  next : {w w' : World} → Turns start w → Turn w w' → Turns start w'
