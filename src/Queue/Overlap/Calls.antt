-- ===== src/Queue/Overlap/Calls.antt =====
-- What the calls other than Enqueue leave alone: which tasks there are, and their IDs and keys
-- (internal/queue/queue.go).
use gojobs.Prelude.{
  ℕ, ◌+◌, ◌≡◌, refl, Bool, true, false, Option, some, none, List, [], ◌∷◌, arith, Bool-cases, inl,
  inr, ltb,
}
use gojobs.Prelude.Map.{nat_eq, lookup}
use gojobs.Clock.{after, before}
use gojobs.Queue.State.{Queue, go_on}
use gojobs.Queue.Methods.{Env, dequeue, dequeue_from, lease, ack, retry, retry_locked, sweep_entry}
use gojobs.Queue.DeadLetter.{requeue_dead, purge_dead_task}
use gojobs.Queue.Overlap.{OtherCall, dequeues, acks, retries, sweeps, requeues, purges}

pub record SameTasks (q q' : Queue) : Type 0 where
  pub next : q'.next ≡ q.next
  pub ids : (p : ℕ) → (q'.cell p).id ≡ (q.cell p).id
  pub keys : (p : ℕ) → (q'.cell p).idempotency_key ≡ (q.cell p).idempotency_key
  pub index_of_keys : q'.index_of_idem_keys ≡ q.index_of_idem_keys

module _ (q : Queue) where
  unchanged : SameTasks q q
  unchanged = record { next = refl; ids = λ p. refl; keys = λ p. refl; index_of_keys = refl }

  dequeue_from-SameTasks : (now : ℕ) (ready : List ℕ) → SameTasks q (dequeue_from ready now q).1
  unfolding dequeue_from lease
  dequeue_from-SameTasks now [] = unchanged
  dequeue_from-SameTasks now (root ∷ rest) =
      elim (Bool-cases (after (q.cell root).available_at now)) [
        | inl late ↦ rw late unchanged
        | inr due ↦ rw due (record {
          next = refl;
          ids = λ p. ground arith;
          keys = λ p. ground arith;
          index_of_keys = refl;
        })
      ]

  ack-SameTasks :
      (syncs : Bool) (id : ℕ) (o : Option ℕ)
      → lookup id q.index ≡ o
      → SameTasks q (ack syncs id q).1
  unfolding ack
  ack-SameTasks syncs id none e = rw (e, go_on) unchanged
  ack-SameTasks false id (some p) e = rw (e, go_on) unchanged
  ack-SameTasks true id (some p) e =
      rw (e, go_on)
        (record {
          next = refl;
          ids = λ p. ground arith;
          keys = λ p. ground arith;
          index_of_keys = refl;
        })

  found-SameTasks :
      (env : Env) (id p : ℕ) → lookup id q.index ≡ some p → SameTasks q (retry_locked env id q).1
  unfolding retry_locked
  found-SameTasks env id p e = elim (Bool-cases (ltb q.max_retries ((q.cell p).retries + 1))) [
    | inl dies ↦ elim (Bool-cases env.syncs) [
      | inl s ↦
          rw (e, go_on, dies, s)
            (record {
              next = refl;
              ids = λ p. ground arith;
              keys = λ p. ground arith;
              index_of_keys = refl;
            })
      | inr s ↦ rw (e, go_on, dies, s) unchanged
    ]
    | inr lives ↦ elim (Bool-cases env.syncs) [
      | inl s ↦
          rw (e, go_on, lives, s)
            (record {
              next = refl;
              ids = λ p. ground arith;
              keys = λ p. ground arith;
              index_of_keys = refl;
            })
      | inr s ↦ rw (e, go_on, lives, s) unchanged
    ]
  ]

  retry-SameTasks :
      (env : Env) (id : ℕ) (o : Option ℕ)
      → lookup id q.index ≡ o
      → SameTasks q (retry_locked env id q).1
  unfolding retry_locked
  retry-SameTasks env id none e = rw (e, go_on) unchanged
  retry-SameTasks env id (some p) e = found-SameTasks env id p e

  sweep-SameTasks : (env : Env) (id : ℕ) (o : Option ℕ) → SameTasks q (sweep_entry env id o q).1
  unfolding sweep_entry
  sweep-SameTasks env id none = unchanged
  sweep-SameTasks env id (some p) = elim (Bool-cases (before (q.cell p).lease_until env.now)) [
    | inl late ↦ rw late (retry-SameTasks env id _ refl)
    | inr early ↦ rw early unchanged
  ]

  requeue-SameTasks :
      (syncs : Bool) (id : ℕ) (o : Option ℕ)
      → lookup id q.dlq ≡ o
      → SameTasks q (requeue_dead syncs id q).1
  unfolding requeue_dead
  requeue-SameTasks syncs id none e = rw (e, go_on) unchanged
  requeue-SameTasks false id (some p) e = rw (e, go_on) unchanged
  requeue-SameTasks true id (some p) e =
      rw (e, go_on)
        (record {
          next = refl;
          ids = λ p. ground arith;
          keys = λ p. ground arith;
          index_of_keys = refl;
        })

  purge-SameTasks :
      (syncs : Bool) (id : ℕ) (o : Option ℕ)
      → lookup id q.dlq ≡ o
      → SameTasks q (purge_dead_task syncs id q).1
  unfolding purge_dead_task
  purge-SameTasks syncs id none e = rw (e, go_on) unchanged
  purge-SameTasks false id (some p) e = rw (e, go_on) unchanged
  purge-SameTasks true id (some p) e =
      rw (e, go_on)
        (record { next = refl; ids = λ p. refl; keys = λ p. refl; index_of_keys = refl })

pub OtherCall-SameTasks : {q q' : Queue} → OtherCall q q' → SameTasks q q'
OtherCall-SameTasks {q} (dequeues now e) =
    rw e (unfold dequeue in dequeue_from-SameTasks q now q.ready)
OtherCall-SameTasks {q} (acks syncs id e) = rw e (ack-SameTasks q syncs id _ refl)
OtherCall-SameTasks {q} (retries env id e) = rw e (unfold retry in retry-SameTasks q env id _ refl)
OtherCall-SameTasks {q} (sweeps env id e) = rw e (sweep-SameTasks q env id _)
OtherCall-SameTasks {q} (requeues syncs id e) = rw e (requeue-SameTasks q syncs id _ refl)
OtherCall-SameTasks {q} (purges syncs id e) = rw e (purge-SameTasks q syncs id _ refl)
