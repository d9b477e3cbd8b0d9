-- ===== src/Queue/Places/Always.antt =====
-- Each task stays in its place through any calls (internal/queue/queue.go), if workers answer only for
-- tasks they have on lease.
use gojobs.Prelude.{ℕ, ◌+◌, ◌^◌, ◌<◌, ◌≡◌, refl, Option, some, none, arith, inl, inr, ◌⊎◌}
use gojobs.Prelude.Array.{times}
use gojobs.Prelude.Map.{nat_eq, bytes_key, lookup}
use gojobs.ReadyHeap.Order.{IsHeap}
use gojobs.Queue.State.{Queue, empty_queue}
use gojobs.Queue.Methods.{Env, retry, sweep_entry}
use gojobs.Queue.Spec.{IsWell}
use gojobs.Queue.Durability.{IsSound}
use gojobs.Queue.Durability.Recovered.{
  Step, enqueues, dequeues, acks, retries, sweeps, requeues, purges, Reach, here, next,
  IsSound-empty, Reach-IsSound,
}
use gojobs.Queue.Tracking.{IsTracked}
use gojobs.Queue.Tracking.Calls.{AllNew, BringsNew, Reach-IsTracked}
use gojobs.Queue.Places.{IsPlaced, dequeue-IsPlaced}
use gojobs.Queue.Places.Calls.{
  acked-IsPlaced, retried-IsPlaced, swept-IsPlaced, requeue_found-IsPlaced, purge_found-IsPlaced,
  enqueue_found-IsPlaced,
}

-- The worker that acknowledges or retries a task still has it on lease.
abbrev pub Answers : {q q' : Queue} → Step q q' → Type 0
Answers {q} (acks syncs id e) = (p : ℕ) × (lookup id q.index_of_inflight ≡ some p)
Answers {q} (retries env id clock e) = (p : ℕ) × (lookup id q.index_of_inflight ≡ some p)
Answers _ = Unit

abbrev pub AllAnswer : {q q' : Queue} → Reach q q' → Type 0
AllAnswer here = Unit
AllAnswer (next r s) = AllAnswer r × Answers s

sweep-IsPlaced :
    (q : Queue) (h : IsPlaced q) (well : IsWell q) (env : Env) (id : ℕ) (o : Option ℕ)
    → lookup id q.index_of_inflight ≡ o
    → IsPlaced (sweep_entry env id o q).1
sweep-IsPlaced q h well env id none e = unfold sweep_entry in h
sweep-IsPlaced q h well env id (some p) e = swept-IsPlaced q h well id p e env

Step-IsPlaced :
    {q q' : Queue}
    → IsSound q
    → IsTracked q
    → IsPlaced q
    → (s : Step q q') → BringsNew s
    → Answers s
    → IsPlaced q'
Step-IsPlaced {q} s t h (enqueues syncs payload key id now fits fresh e) new answers =
    rw e (enqueue_found-IsPlaced q h s.well t payload key id now new syncs _ refl)
Step-IsPlaced {q} s t h (dequeues now e) new answers = rw e (dequeue-IsPlaced q h s.well now)
Step-IsPlaced {q} s t h (acks syncs id e) new (p, leased) =
    rw e (acked-IsPlaced q h s.well id p leased syncs)
Step-IsPlaced {q} s t h (retries env id clock e) new (p, leased) =
    rw e (unfold retry in retried-IsPlaced q h s.well id p leased env)
Step-IsPlaced {q} s t h (sweeps env id clock e) new answers =
    rw e (sweep-IsPlaced q h s.well env id _ refl)
Step-IsPlaced {q} s t h (requeues syncs id e) new answers =
    rw e (requeue_found-IsPlaced q h s.well id syncs _ refl)
Step-IsPlaced {q} s t h (purges syncs id e) new answers =
    rw e (purge_found-IsPlaced q h s.well id syncs _ refl)

Reach-IsPlaced :
    (timeout max : ℕ) (q : Queue) (r : Reach (empty_queue timeout max) q)
    → max + 1 < 2 ^ 32
    → AllNew r
    → AllAnswer r
    → IsPlaced q
Reach-IsPlaced timeout max q here room new answers =
    unfold empty_queue lookup in
    record {
      heap = λ k kp kn kl. absurd (omega arith);
      once = λ p. omega arith;
      apart = λ id p e. cc;
      leased_live = λ id p e. cc;
      ready_live = λ p e. absurd (omega arith);
    }
Reach-IsPlaced timeout max q (next r s) room new answers =
    Step-IsPlaced (Reach-IsSound (IsSound-empty timeout max room) r)
      (Reach-IsTracked timeout max _ r room new.0)
      (Reach-IsPlaced timeout max _ r room new.0 answers.0) s new.1 answers.1

-- A live task is on the heap once and not leased, or leased and not on the heap; nothing else is on the
-- heap or leased.
pub record InOnePlace (q : Queue) : Type 0 where
  pub heap : IsHeap q.cell q.ready
  pub one :
      (id p : ℕ)
      → lookup id q.index ≡ some p
      → ((times p q.ready ≡ 1) × (lookup id q.index_of_inflight ≡ none))
        ⊎ ((times p q.ready ≡ 0) × (lookup id q.index_of_inflight ≡ some p))
  pub ready_live : (p : ℕ) → 0 < times p q.ready → lookup (q.cell p).id q.index ≡ some p
  pub leased_live : (id p : ℕ) → lookup id q.index_of_inflight ≡ some p → lookup id q.index ≡ some p

place_of :
    (q : Queue) (h : IsPlaced q) (id p : ℕ) (o : Option ℕ)
    → lookup id q.index ≡ some p
    → (0 < times p q.ready) ⊎ (lookup id q.index_of_inflight ≡ some p)
    → lookup id q.index_of_inflight ≡ o
    → ((times p q.ready ≡ 1) × (lookup id q.index_of_inflight ≡ none))
      ⊎ ((times p q.ready ≡ 0) × (lookup id q.index_of_inflight ≡ some p))
place_of q h id p none live (inl ready) e = inl (omega (arith, h.once p, ready), e)
place_of q h id p none live (inr leased) e = cc
place_of q h id p (some a) live where_it_is e =
    let same : a ≡ p = grind (arith, h.leased_live id a e, live) in
    inr (grind (arith, same, h.apart id a e), grind (arith, same, e))

-- A queue started empty, after any calls, one at a time, in which each Enqueue brings a new ID and each
-- Ack and Retry is for a task that is on lease: the ready list is a heap, each live task is on it
-- once and not leased or leased and not on it, and nothing else is on it or leased. A retry count has
-- room in 32 bits.
pub Reach-InOnePlace :
    (timeout max : ℕ) (q : Queue) (r : Reach (empty_queue timeout max) q)
    → max + 1 < 2 ^ 32
    → AllNew r
    → AllAnswer r
    → InOnePlace q
Reach-InOnePlace timeout max q r room new answers =
    let h = Reach-IsPlaced timeout max q r room new answers in
    let t = Reach-IsTracked timeout max q r room new in
    record {
      heap = h.heap;
      one = λ id p e. place_of q h id p _ e (t.tracked id p e) refl;
      ready_live = h.ready_live;
      leased_live = h.leased_live;
    }
