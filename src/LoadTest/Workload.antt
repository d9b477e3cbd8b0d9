-- ===== src/LoadTest/Workload.antt =====
-- cmd/loadtest/workload.go: the rounds of the producers and the consumers, and the verdict.
-- The rolls of the random numbers are arguments, as are the clock, the fresh IDs and whether the log
-- takes a record. An atomic counter moves in one step with the call that it counts.
use gojobs.Prelude.{
  ℕ, ◌+◌, Bool, true, false, Option, some, none, [], ◌∷◌, ◌==◌, ◌&&◌, not, if◌then◌else◌,
}
use gojobs.Prelude.Int.{ℤ, pos, minus}
use gojobs.Prelude.Run.{Run, ok}
use gojobs.Queue.State.{Queue}
use gojobs.Queue.Methods.{Env, enqueue, dequeue, ack, retry}
use gojobs.Queue.DeadLetter.{dlq_len}
use gojobs.LoadTest.Store.{EffectStore, apply, distinct, deliveries}
use gojobs.LoadTest.Keys.{producer_key}

-- runStats, less the metrics of the window, which Results takes beside it.
pub record RunStats : Type 0 where
  pub produced : ℕ
  pub delivered : ℕ
  pub acked : ℕ
  pub retried : ℕ
  pub crashed : ℕ
  pub distinct_effects : ℕ
  pub effect_deliveries : ℕ
  pub dlq_length : ℕ
  pub pass : Bool
  pub shortfall : ℤ

-- var stats runStats
abbrev pub no_stats : RunStats
no_stats = record {
  produced = 0;
  delivered = 0;
  acked = 0;
  retried = 0;
  crashed = 0;
  distinct_effects = 0;
  effect_deliveries = 0;
  dlq_length = 0;
  pass = false;
  shortfall = pos 0;
}

-- What the goroutines share.
pub record Load : Type 0 where
  pub queue : Queue
  pub store : EffectStore
  pub stats : RunStats

abbrev pub counted : Load → Run ℕ × Queue → Bool × Load
counted l (ok task, q) =
    (true, record l { queue = q; stats = record (l.stats) { produced = l.stats.produced + 1 } })
counted l (_, q) = (false, record l { queue = q })

-- One round of a producer. It goes on with the next number, or returns at an error.
unfoldable pub produce : Bool → ℕ → ℕ → ℕ → ℕ → Load → Bool × Load
unfolding enqueue producer_key
produce syncs id seq uuid now l =
    counted l (enqueue syncs (120 ∷ []) (producer_key id seq) uuid now l.queue)

-- Where a consumer stands: before its next Dequeue, with a task in hand, with its effect applied and
-- the Ack to come, or returned.
pub data Stage : Type 0 where
  looking : Stage
  holding : ℕ → Stage
  effected : ℕ → Stage
  stopped : Stage

abbrev pub taken : Load → Run (Option ℕ) × Queue → Stage × Load
taken l (ok none, q) = (looking, record l { queue = q })
taken l (ok (some p), q) = (
  holding p,
  record l { queue = q; stats = record (l.stats) { delivered = l.stats.delivered + 1 } },
)
taken l (_, q) = (stopped, record l { queue = q })

-- A consumer's Dequeue.
unfoldable pub take_task : ℕ → Load → Stage × Load
unfolding dequeue
take_task now l = taken l (dequeue now l.queue)

-- store.apply(task.IdempotencyKey)
abbrev pub apply_task : ℕ → Load → Load
apply_task p l = record l { store = apply (l.queue.cell p).idempotency_key l.store }

abbrev pub handed_back : Load → Run (Unit {0}) × Queue → Stage × Load
handed_back l (ok _, q) =
    (looking, record l { queue = q; stats = record (l.stats) { retried = l.stats.retried + 1 } })
handed_back l (_, q) = (stopped, record l { queue = q })

-- The handler failed before the effect.
unfoldable pub hand_back : Env → ℕ → Load → Stage × Load
unfolding retry
hand_back env p l = handed_back l (retry env (l.queue.cell p).id l.queue)

-- The rolls: the delivery fails, and if it does, after the effect.
unfoldable pub handle : Bool → Bool → Env → ℕ → Load → Stage × Load
unfolding apply hand_back
handle true true env p l =
    let l' = apply_task p l in
    (looking, record l' { stats = record (l'.stats) { crashed = l'.stats.crashed + 1 } })
handle true false env p l = hand_back env p l
handle false crashes env p l = (effected p, apply_task p l)

abbrev pub finished : Load → Run (Unit {0}) × Queue → Stage × Load
finished l (ok _, q) =
    (looking, record l { queue = q; stats = record (l.stats) { acked = l.stats.acked + 1 } })
finished l (_, q) = (stopped, record l { queue = q })

-- A consumer's Ack.
unfoldable pub finish : Bool → ℕ → Load → Stage × Load
unfolding ack
finish syncs p l = finished l (ack syncs (l.queue.cell p).id l.queue)

-- The end of run: what the store and the queue say, and the verdict.
unfoldable pub conclude : Load → RunStats
unfolding distinct deliveries dlq_len
conclude l =
    let landed = distinct l.store in
    let dead = dlq_len l.queue in
    let pass = landed == l.stats.produced && l.stats.acked == l.stats.produced && dead == 0 in
    record (l.stats) {
      distinct_effects = landed;
      effect_deliveries = deliveries l.store;
      dlq_length = dead;
      pass = pass;
      shortfall = if not pass then minus l.stats.produced landed else l.stats.shortfall;
    }
