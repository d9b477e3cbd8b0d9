-- ===== src/Queue/FailClosed.antt =====
-- Calls that fail (internal/queue/queue.go: Enqueue, Dequeue, Ack, Retry, RequeueDead, PurgeDeadTask).
use gojobs.Prelude.{
  ℕ, ◌+◌, ◌≡◌, refl, Bool, true, false, Option, some, none, List, [], ◌∷◌, Bool-cases, inl, inr,
  ltb, not,
}
use gojobs.Prelude.Run.{Run, ok, err, panic, out_of_fuel}
use gojobs.Prelude.Map.{nat_eq, lookup}
use gojobs.Clock.{after}
use gojobs.Queue.State.{Queue, go_on}
use gojobs.Queue.Methods.{
  Env, existing, enqueue, dequeue, dequeue_from, lease, ack, retry, retry_locked,
}
use gojobs.Queue.DeadLetter.{requeue_dead, purge_dead_task}
use gojobs.Queue.Idempotency.{enqueue_known, enqueue_lost, enqueue_new}

-- The tasks, the maps and the ready list are as they were.
pub record SameMemory (q q' : Queue) : Type 0 where
  pub cell : q'.cell ≡ q.cell
  pub next : q'.next ≡ q.next
  pub ready : q'.ready ≡ q.ready
  pub index : q'.index ≡ q.index
  pub index_of_inflight : q'.index_of_inflight ≡ q.index_of_inflight
  pub index_of_idem_keys : q'.index_of_idem_keys ≡ q.index_of_idem_keys
  pub dlq : q'.dlq ≡ q.dlq

-- The call fails exactly if it is refused, and then the memory is as it was.
abbrev pub IsClosed : {A : Type 0} → Queue → Bool → Run A × Queue → Type 0
IsClosed q refused (ok a, q') = refused ≡ false
IsClosed q refused (err e, q') = (refused ≡ true) × SameMemory q q'
IsClosed q refused (panic, q') = ⊥
IsClosed q refused (out_of_fuel, q') = ⊥

-- A task that is not there, or a log that does not take the record.
abbrev pub unknown_or_lost : Option ℕ → Bool → Bool
unknown_or_lost none syncs = true
unknown_or_lost (some p) syncs = not syncs

-- A new key needs the log.
abbrev pub new_and_lost : Option ℕ → Bool → Bool
new_and_lost none syncs = not syncs
new_and_lost (some old) syncs = false

unchanged : (q : Queue) → SameMemory q q
unchanged q = record {
  cell = refl;
  next = refl;
  ready = refl;
  index = refl;
  index_of_inflight = refl;
  index_of_idem_keys = refl;
  dlq = refl;
}

IsClosed-ok : {A : Type 0} (q : Queue) (r : Run A × Queue) (a : A) → r.0 ≡ ok a → IsClosed q false r
IsClosed-ok q (ok b, q') a e = refl
IsClosed-ok q (err x, q') a e = cc
IsClosed-ok q (panic, q') a e = cc
IsClosed-ok q (out_of_fuel, q') a e = cc

module _ (q : Queue) where
  enqueue-IsClosed :
      (syncs : Bool) (payload key : List ℕ) (id now : ℕ) (o : Option ℕ)
      → existing key q ≡ o
      → IsClosed q (new_and_lost o syncs) (enqueue syncs payload key id now q)
  enqueue-IsClosed syncs payload key id now (some old) e =
      rw (enqueue_known payload key id now q syncs old e) refl
  enqueue-IsClosed false payload key id now none e =
      rw (enqueue_lost payload key id now q e) (refl, unchanged q)
  enqueue-IsClosed true payload key id now none e =
      IsClosed-ok q _ id (enqueue_new payload key id now q e)

  dequeue-IsClosed : (now : ℕ) (ready : List ℕ) → IsClosed q false (dequeue_from ready now q)
  unfolding dequeue_from lease
  dequeue-IsClosed now [] = refl
  dequeue-IsClosed now (root ∷ rest) = elim (Bool-cases (after (q.cell root).available_at now)) [
    | inl e ↦ rw e refl
    | inr e ↦ rw e refl
  ]

  ack-IsClosed :
      (syncs : Bool) (id : ℕ) (o : Option ℕ)
      → lookup id q.index ≡ o
      → IsClosed q (unknown_or_lost o syncs) (ack syncs id q)
  unfolding ack
  ack-IsClosed syncs id none e = rw (e, go_on) (refl, unchanged q)
  ack-IsClosed true id (some p) e = rw (e, go_on) refl
  ack-IsClosed false id (some p) e = rw (e, go_on) (refl, unchanged q)

  requeue-IsClosed :
      (syncs : Bool) (id : ℕ) (o : Option ℕ)
      → lookup id q.dlq ≡ o
      → IsClosed q (unknown_or_lost o syncs) (requeue_dead syncs id q)
  unfolding requeue_dead
  requeue-IsClosed syncs id none e = rw (e, go_on) (refl, unchanged q)
  requeue-IsClosed true id (some p) e = rw (e, go_on) refl
  requeue-IsClosed false id (some p) e = rw (e, go_on) (refl, unchanged q)

  purge-IsClosed :
      (syncs : Bool) (id : ℕ) (o : Option ℕ)
      → lookup id q.dlq ≡ o
      → IsClosed q (unknown_or_lost o syncs) (purge_dead_task syncs id q)
  unfolding purge_dead_task
  purge-IsClosed syncs id none e = rw (e, go_on) (refl, unchanged q)
  purge-IsClosed true id (some p) e = rw (e, go_on) refl
  purge-IsClosed false id (some p) e = rw (e, go_on) (refl, unchanged q)

  retry-IsClosed :
      (env : Env) (id : ℕ) (o : Option ℕ)
      → lookup id q.index ≡ o
      → IsClosed q (unknown_or_lost o env.syncs) (retry_locked env id q)
  unfolding retry_locked
  retry-IsClosed env id none e = rw (e, go_on) (refl, unchanged q)
  retry-IsClosed env id (some p) e =
      elim (Bool-cases (ltb q.max_retries ((q.cell p).retries + 1))) [
        | inl dies ↦ elim (Bool-cases env.syncs) [
          | inl s ↦ rw (e, go_on, dies, s) refl
          | inr s ↦ rw (e, go_on, dies, s) (refl, unchanged q)
        ]
        | inr lives ↦ elim (Bool-cases env.syncs) [
          | inl s ↦ rw (e, go_on, lives, s) refl
          | inr s ↦ rw (e, go_on, lives, s) (refl, unchanged q)
        ]
      ]

pub record FailsClosed (q : Queue) : Type 0 where
  pub enqueues :
      (syncs : Bool) (payload key : List ℕ) (id now : ℕ)
      → IsClosed q (new_and_lost (existing key q) syncs) (enqueue syncs payload key id now q)
  pub dequeues : (now : ℕ) → IsClosed q false (dequeue now q)
  pub acks :
      (syncs : Bool) (id : ℕ)
      → IsClosed q (unknown_or_lost (lookup id q.index) syncs) (ack syncs id q)
  pub retries :
      (env : Env) (id : ℕ)
      → IsClosed q (unknown_or_lost (lookup id q.index) env.syncs) (retry env id q)
  pub requeues :
      (syncs : Bool) (id : ℕ)
      → IsClosed q (unknown_or_lost (lookup id q.dlq) syncs) (requeue_dead syncs id q)
  pub purges :
      (syncs : Bool) (id : ℕ)
      → IsClosed q (unknown_or_lost (lookup id q.dlq) syncs) (purge_dead_task syncs id q)

-- On any queue whose log is open: Ack and Retry fail exactly if the task is not live or the log does not
-- take the record, RequeueDead and PurgeDeadTask exactly if it is not dead or the log does not take the
-- record, Enqueue exactly if the key is new and the log does not take the record, and Dequeue never.
-- One that fails returns an error and has left the tasks, the maps and the ready list as they were.
pub fails_closed : (q : Queue) → FailsClosed q
unfolding dequeue retry
fails_closed q = record {
  enqueues = λ syncs payload key id now. enqueue-IsClosed q syncs payload key id now _ refl;
  dequeues = λ now. dequeue-IsClosed q now q.ready;
  acks = λ syncs id. ack-IsClosed q syncs id _ refl;
  retries = λ env id. retry-IsClosed q env id _ refl;
  requeues = λ syncs id. requeue-IsClosed q syncs id _ refl;
  purges = λ syncs id. purge-IsClosed q syncs id _ refl;
}
