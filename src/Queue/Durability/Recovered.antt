-- ===== src/Queue/Durability/Recovered.antt =====
-- A queue that is opened on the log of another one (internal/queue/queue.go, wal.go): any sequence of
-- calls and of sweeps, then NewQueue.
use gojobs.Prelude.{
  ℕ, ◌+◌, ◌^◌, ◌<◌, ◌≡◌, refl, sym, ap, ◌∙◌, Bool, true, Option, some, List, [], ◌∷◌, ◌++◌, arith,
}
use gojobs.Prelude.Run.{Run, ok, err, panic, out_of_fuel, ◌>>=◌}
use gojobs.Prelude.Map.{nat_eq, lookup}
use gojobs.Clock.{HasUnixNano}
use gojobs.Record.Payload
use gojobs.Record.Payload.{Record}
use gojobs.Record.Decode.{decode_record}
use gojobs.Record.RoundTrip.{ReadsUuid, Fits, decode_record-body}
use gojobs.Wal.Replay.{EndsLog, AllFit, frames, apply_all, replay-frames}
use gojobs.ReadyHeap.{heap_init}
use gojobs.Queue.State.{Queue, empty_queue}
use gojobs.Queue.Methods.{Env, enqueue, dequeue, ack, retry, sweep_entry}
use gojobs.Queue.DeadLetter.{requeue_dead, purge_dead_task}
use gojobs.Queue.Recovery.{apply_op, apply_record, new_queue}
use gojobs.Queue.Recovery.Listed.{IsListed, apply_op-IsListed}
use gojobs.Queue.Recovery.Refines.{Admits, apply_op-refines}
use gojobs.Queue.Spec.{view, transition}
use gojobs.Queue.Spec.Moves.{Holds}
use gojobs.Queue.Durability.{IsSound, Keeps, silent, logged, Amends-Keeps, Keeps-IsSound}
use gojobs.Queue.Durability.Ack.{ack-Keeps, dequeue-Keeps}
use gojobs.Queue.Durability.Retry.{retry-Keeps, sweep_entry-Amends}
use gojobs.Queue.Durability.Enqueue.{enqueue_fields, enqueue-Keeps}
use gojobs.Queue.Durability.DeadLetter.{requeue_dead-Keeps, purge_dead_task-Keeps}

-- One call, or one lease that the sweeper looks at, whatever it returns. An ENQUEUE brings an ID
-- that is not in use, and the clock is one that the log can hold.
pub data Step (q q' : Queue) : Type 0 where
  enqueues :
      (syncs : Bool) (payload key : List ℕ) (id now : ℕ)
      → Fits (Payload.enqueue (enqueue_fields payload key id now))
      → Admits (view q) (Payload.enqueue (enqueue_fields payload key id now))
      → q' ≡ (enqueue syncs payload key id now q).1
      → Step q q'
  dequeues : (now : ℕ) → q' ≡ (dequeue now q).1 → Step q q'
  acks : (syncs : Bool) (id : ℕ) → q' ≡ (ack syncs id q).1 → Step q q'
  retries : (env : Env) (id : ℕ) → HasUnixNano env.now → q' ≡ (retry env id q).1 → Step q q'
  sweeps :
      (env : Env) (id : ℕ)
      → HasUnixNano env.now
      → q' ≡ (sweep_entry env id (lookup id q.index_of_inflight) q).1
      → Step q q'
  requeues : (syncs : Bool) (id : ℕ) → q' ≡ (requeue_dead syncs id q).1 → Step q q'
  purges : (syncs : Bool) (id : ℕ) → q' ≡ (purge_dead_task syncs id q).1 → Step q q'

pub data Reach (start : Queue) : Queue → Type 0 where
  here : Reach start start
  next : {q q' : Queue} → Reach start q → Step q q' → Reach start q'

-- Of the records that were acknowledged, each call adds none, and the queue holds what it held, or it
-- adds the one that says what it changed.
pub acknowledged-Keeps : {q q' : Queue} → IsSound q → Step q q' → Keeps q q'
acknowledged-Keeps s (enqueues syncs payload key id now fits fresh e) =
    rw e (enqueue-Keeps _ s payload key id now fits fresh syncs)
acknowledged-Keeps s (dequeues now e) = rw e (dequeue-Keeps _ s now)
acknowledged-Keeps s (acks syncs id e) = rw e (ack-Keeps _ s syncs id)
acknowledged-Keeps s (retries env id clock e) = rw e (unfold retry in retry-Keeps _ s env id clock)
acknowledged-Keeps s (sweeps env id clock e) =
    rw e (Amends-Keeps (sweep_entry-Amends _ s env id _ clock))
acknowledged-Keeps s (requeues syncs id e) = rw e (requeue_dead-Keeps _ s syncs id)
acknowledged-Keeps s (purges syncs id e) = rw e (purge_dead_task-Keeps _ s syncs id)

-- The log took the record of the call, if it had one.
abbrev pub Taken : {q q' : Queue} → Step q q' → Type 0
Taken (enqueues syncs payload key id now fits fresh e) = syncs ≡ true
Taken (acks syncs id e) = syncs ≡ true
Taken (retries env id clock e) = env.syncs ≡ true
Taken (sweeps env id clock e) = env.syncs ≡ true
Taken (requeues syncs id e) = syncs ≡ true
Taken (purges syncs id e) = syncs ≡ true
Taken _ = Unit

abbrev pub AllTaken : {q q' : Queue} → Reach q q' → Type 0
AllTaken here = Unit
AllTaken (next r s) = AllTaken r × Taken s

-- On a sound queue, each call whose record the log takes, if it has one, keeps the log: either it
-- appends no record, and the queue holds what it held, or it appends one record, with the effect that
-- the specification gives to it. An Enqueue brings an ID that is not in use and fields that fit.
pub Step-Keeps : {q q' : Queue} → IsSound q → (s : Step q q') → Taken s → Keeps q q'
Step-Keeps sound s taken = acknowledged-Keeps sound s

>>=-eq_ok {ℓ} :
    {S : Type ℓ} (m : Run S) (f : S → Run S) {s' : S}
    → (m >>= f) ≡ ok s'
    → (s : S) × (m ≡ ok s) × (f s ≡ ok s')
>>=-eq_ok (ok s) f h = (s, refl, h)
>>=-eq_ok (err e) f h = cc
>>=-eq_ok panic f h = cc
>>=-eq_ok out_of_fuel f h = cc

pub apply_all-append {ℓ} :
    {S : Type ℓ} (apply : S → List ℕ → Run S) (recs : List (List ℕ)) (rec : List ℕ) (s s' : S)
    {s'' : S}
    → apply_all apply recs s ≡ ok s'
    → apply s' rec ≡ ok s''
    → apply_all apply (recs ++ rec ∷ []) s ≡ ok s''
apply_all-append apply [] rec s s' e h = let same : s ≡ s' = cc in rw same (ap (λ m. m >>= ok) h)
apply_all-append apply (r ∷ recs) rec s s' e h =
    let (mid, first, later) = >>=-eq_ok (apply s r) (apply_all apply recs) e in
    rw first (apply_all-append apply recs rec mid s' later h)

pub apply_record-decoded :
    (from_bytes : List ℕ → Option ℕ) (clock : Queue → ℕ) (q : Queue) (b : List ℕ) (r : Record)
    → decode_record from_bytes b ≡ ok r
    → apply_record from_bytes clock q b ≡ apply_op clock q r
unfolding apply_record
apply_record-decoded from_bytes clock q b r e = rw e

pub IsSound-empty : (timeout max : ℕ) → max + 1 < 2 ^ 32 → IsSound (empty_queue timeout max)
unfolding empty_queue view lookup
IsSound-empty timeout max h = record {
  well = record {
    index_id = λ id p e. cc;
    dlq_id = λ id p e. cc;
    index_next = λ id p e. cc;
    dlq_next = λ id p e. cc;
    apart = λ id p e. cc;
  };
  bounded = record { live_id = λ id e x. cc; dead_id = λ id e x. cc; live_retries = λ id e x. cc };
  room = h;
}

pub Reach-IsSound : {q q' : Queue} → IsSound q → Reach q q' → IsSound q'
Reach-IsSound s here = s
Reach-IsSound s (next r step) =
    let sound = Reach-IsSound s r in Keeps-IsSound sound (acknowledged-Keeps sound step)

-- Replaying the log of `q`, from any start that holds nothing, gives a queue that holds what `q` holds.
pub record Recovered (from_bytes : List ℕ → Option ℕ) (clock : Queue → ℕ) (start q : Queue)
    : Type 0 where
  pub after : Queue
  pub replays : apply_all (apply_record from_bytes clock) q.log start ≡ ok after
  pub same : Holds after (view q)
  pub listed : IsListed after

module _ (from_bytes : List ℕ → Option ℕ) (clock : Queue → ℕ) (reads : ReadsUuid from_bytes)
    (start : Queue) where
  Keeps-Recovered :
      {q q' : Queue}
      → Recovered from_bytes clock start q
      → Keeps q q'
      → Recovered from_bytes clock start q'
  Keeps-Recovered c (silent log max h) = record {
    after = c.after;
    replays = rw log c.replays;
    same = record { holds = c.same.holds ∙ sym h.holds; well = c.same.well };
    listed = c.listed;
  }
  Keeps-Recovered {q} {q'} c (logged r b d eb fits fresh step log max h allowed) =
      let admits : Admits (view c.after) r = rw c.same.holds fresh in
      let stepped : transition (view c.after) r ≡ some d = rw c.same.holds step in
      let (after, applied, held) = apply_op-refines clock c.after c.same.well r admits stepped in
      let decoded : decode_record from_bytes b ≡ ok r =
        rw eb at (decode_record-body from_bytes reads r fits) in
      record {
        after = after;
        replays = rw log (
            apply_all-append (apply_record from_bytes clock) q.log b start c.after c.replays
              (apply_record-decoded from_bytes clock c.after b r decoded ∙ applied));
        same = record { holds = held.holds ∙ sym h.holds; well = held.well };
        listed = apply_op-IsListed clock c.after c.listed c.same.well r after admits applied;
      }

  pub Reach-Recovered :
      {q q' : Queue}
      → IsSound q
      → Recovered from_bytes clock start q
      → (reach : Reach q q') → AllTaken reach
      → Recovered from_bytes clock start q'
  Reach-Recovered s c here taken = c
  Reach-Recovered s c (next r step) taken =
      Keeps-Recovered (Reach-Recovered s c r taken.0) (Step-Keeps (Reach-IsSound s r) step taken.1)

pub Holds-empty :
    (timeout max timeout' max' : ℕ)
    → Holds (empty_queue timeout max) (view (empty_queue timeout' max'))
unfolding empty_queue view lookup
Holds-empty timeout max timeout' max' = record {
  holds = refl;
  well = record {
    index_id = λ id p e. cc;
    dlq_id = λ id p e. cc;
    index_next = λ id p e. cc;
    dlq_next = λ id p e. cc;
    apart = λ id p e. cc;
  };
}

pub Recovered-empty :
    (from_bytes : List ℕ → Option ℕ) (clock : Queue → ℕ) (timeout max timeout' max' : ℕ)
    → Recovered from_bytes clock (empty_queue timeout' max') (empty_queue timeout max)
unfolding empty_queue lookup
Recovered-empty from_bytes clock timeout max timeout' max' = record {
  after = empty_queue timeout' max';
  replays = refl;
  same = Holds-empty timeout' max' timeout max;
  listed = record {
    once = λ p. omega arith;
    ready_live = λ p e. absurd (omega arith);
    live_ready = λ id p e. cc;
  };
}

-- A queue started empty, after any calls, one at a time, each Enqueue with an ID that is not in use and
-- with fields that fit their record, and no append has failed. NewQueue on its log, with a torn end or without one, and with any
-- settings, returns a queue that holds the same live tasks, the same dead ones and the same keys, if no
-- record is longer than its frame can say, a retry count has room in 32 bits, and sixteen bytes are
-- read back as the UUID that they are.
pub recovery :
    (from_bytes : List ℕ → Option ℕ) (clock : Queue → ℕ) (timeout max timeout' max' : ℕ) (q : Queue)
    (torn : List ℕ)
    → ReadsUuid from_bytes
    → max + 1 < 2 ^ 32
    → (reach : Reach (empty_queue timeout max) q) → AllTaken reach
    → AllFit q.log
    → EndsLog torn
    → (r : Queue) × (new_queue from_bytes clock (frames q.log ++ torn) timeout' max' ≡ ok r)
      × (view r ≡ view q)
unfolding new_queue view
recovery from_bytes clock timeout max timeout' max' q torn reads room reach taken fits ends =
    let start = empty_queue timeout' max' in
    let c =
      Reach-Recovered from_bytes clock reads start (IsSound-empty timeout max room)
        (Recovered-empty from_bytes clock timeout max timeout' max') reach taken in
    (
      record c.after { ready = heap_init c.after.cell c.after.ready },
      rw (replay-frames (apply_record from_bytes clock) q.log torn start fits ends, c.replays),
      c.same.holds,
    )
