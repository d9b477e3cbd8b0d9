-- ===== src/Queue/Overlap/Reopened.antt =====
-- A queue that is opened again while calls of Enqueue overlap (internal/queue/queue.go: Enqueue, NewQueue).
use gojobs.Prelude.{
  ℕ, ◌+◌, ◌^◌, ◌<◌, ◌≡◌, refl, ◌∙◌, true, Option, some, none, List, ◌++◌, inl, inr, ◌⊎◌,
}
use gojobs.Prelude.Run.{ok}
use gojobs.Prelude.Map.{nat_eq, bytes_key, lookup}
use gojobs.Clock.{HasUnixNano}
use gojobs.Task.{Task}
use gojobs.Record.RoundTrip.{ReadsUuid}
use gojobs.Wal.Replay.{frames, AllFit, EndsLog, replay-frames}
use gojobs.ReadyHeap.{heap_init}
use gojobs.Queue.State.{Queue, empty_queue}
use gojobs.Queue.Methods.{has_key, retry, start_enqueue, finish_enqueue}
use gojobs.Queue.Recovery.{new_queue, apply_record}
use gojobs.Queue.Spec.{Entry, view, entry_of}
use gojobs.Queue.Durability.{IsSound, Amends}
use gojobs.Queue.Durability.Ack.{ack-Amends, dequeue-Amends}
use gojobs.Queue.Durability.Retry.{retry-Amends, sweep_entry-Amends}
use gojobs.Queue.Durability.DeadLetter.{requeue_dead-Amends, purge_dead_task-Amends}
use gojobs.Queue.Durability.Recovered.{IsSound-empty, Holds-empty}
use gojobs.Queue.Overlap.{
  durable, answered, Crowd, OtherCall, dequeues, acks, retries, sweeps, requeues, purges, Turn,
  starts, logs, finishes, calls, Turns, here, next, new_crowd,
}
use gojobs.Queue.Overlap.OneTask.{IsOnce}
use gojobs.Queue.Overlap.Promise.{Turns-IsOnce}
use gojobs.Queue.Overlap.Overlay.{Overlay, or_else, over}
use gojobs.Queue.Overlap.Flying.{LoggedId, Flying}
use gojobs.Queue.Overlap.Logged.{IsLogged, called-IsLogged}
use gojobs.Queue.Overlap.Parts.{
  IsApart, start_found-IsLogged, append_found-IsLogged, finish_found-IsLogged,
}

-- The clock is one that the log can hold.
abbrev pub HasClock : {q q' : Queue} → OtherCall q q' → Type 0
HasClock (retries env id e) = HasUnixNano env.now
HasClock (sweeps env id e) = HasUnixNano env.now
HasClock _ = Unit

-- The log took the record of the call, if it had one.
abbrev pub IsTaken : {q q' : Queue} → OtherCall q q' → Type 0
IsTaken (acks syncs id e) = syncs ≡ true
IsTaken (retries env id e) = env.syncs ≡ true
IsTaken (sweeps env id e) = env.syncs ≡ true
IsTaken (requeues syncs id e) = syncs ≡ true
IsTaken (purges syncs id e) = syncs ≡ true
IsTaken _ = Unit

abbrev pub Brings : {s s' : Crowd} → Turn s s' → Type 0
Brings {s} (starts i payload key id now begun e) = IsApart s payload key id now
Brings (logs i key t rec syncs stands e) = syncs ≡ true
Brings (calls q call e) = HasClock call × IsTaken call
Brings _ = Unit

abbrev pub AllBring : {s s' : Crowd} → Turns s s' → Type 0
AllBring here = Unit
AllBring (next r t) = AllBring r × Brings t

OtherCall-Amends : {q q' : Queue} → IsSound q → (c : OtherCall q q') → HasClock c → Amends q q'
OtherCall-Amends {q} sound (dequeues now e) clock = rw e (dequeue-Amends q sound now)
OtherCall-Amends {q} sound (acks syncs id e) clock = rw e (ack-Amends q sound syncs id)
OtherCall-Amends {q} sound (retries env id e) clock =
    rw e (unfold retry in retry-Amends q sound env id clock)
OtherCall-Amends {q} sound (sweeps env id e) clock =
    rw e (sweep_entry-Amends q sound env id _ clock)
OtherCall-Amends {q} sound (requeues syncs id e) clock = rw e (requeue_dead-Amends q sound syncs id)
OtherCall-Amends {q} sound (purges syncs id e) clock =
    rw e (purge_dead_task-Amends q sound syncs id)

module _ (from_bytes : List ℕ → Option ℕ) (clock : Queue → ℕ) (reads : ReadsUuid from_bytes)
    (start : Queue) where
  Turn-IsLogged :
      {s s' : Crowd}
      → IsLogged from_bytes clock reads start s
      → (t : Turn s s') → Brings t
      → IsLogged from_bytes clock reads start s'
  unfolding start_enqueue finish_enqueue
  Turn-IsLogged {s} h (starts i payload key id now begun e) brings = rw e (
      start_found-IsLogged from_bytes clock reads start s h i payload key id now _ refl begun
        brings)
  Turn-IsLogged {s} h (logs i key t rec syncs stands e) brings =
      rw (e, brings)
        (append_found-IsLogged from_bytes clock reads start s h i key t rec stands
          (rw stands at (h.flying.stands i)))
  Turn-IsLogged {s} h (finishes i key t stands e) brings = rw e (
      finish_found-IsLogged from_bytes clock reads start s h i key t _ refl stands
        (rw stands at (h.flying.stands i)))
  Turn-IsLogged {s} h (calls q call e) brings =
      rw e (
        called-IsLogged from_bytes clock reads start s q h (OtherCall-Amends h.sound call brings.0))

  Turns-IsLogged :
      {s s' : Crowd}
      → IsLogged from_bytes clock reads start s
      → (r : Turns s s') → AllBring r
      → IsLogged from_bytes clock reads start s'
  Turns-IsLogged h here brings = h
  Turns-IsLogged h (next r t) brings = Turn-IsLogged (Turns-IsLogged h r brings.0) t brings.1

new_crowd-IsLogged :
    (from_bytes : List ℕ → Option ℕ) (clock : Queue → ℕ) (reads : ReadsUuid from_bytes)
    (timeout max timeout' max' : ℕ)
    → max + 1 < 2 ^ 32
    → IsLogged from_bytes clock reads
        (empty_queue timeout' max')
        (new_crowd (empty_queue timeout max))
unfolding empty_queue lookup view
new_crowd-IsLogged from_bytes clock reads timeout max timeout' max' room = record {
  sound = IsSound-empty timeout max room;
  overlay = record { live = λ id. none; keys = λ key. none };
  after = empty_queue timeout' max';
  replays = refl;
  same = Holds-empty timeout' max' timeout max;
  flying = record {
    stands = λ i. tt;
    from_id = λ id x. absurd (x refl);
    from_key = λ key x. absurd (x refl);
    rivals = λ i j key key' t t' ne x y. record { keys = λ z. cc; ids = λ z. cc };
  };
}

-- What a reopened queue has, against the queue and the callers at the time.
pub record Reopened (s : Crowd) (r : Queue) : Type 0 where
  pub live : (id : ℕ) (e : Entry) → (view s.queue).live id ≡ some e → (view r).live id ≡ some e
  pub dead : (id : ℕ) → (view r).dead_ones id ≡ (view s.queue).dead_ones id
  pub promised :
      (i : ℕ) (key : List ℕ) (id : ℕ)
      → s.callers i ≡ answered key id
      → has_key key ≡ true
      → (view r).keys key ≡ some id
  pub logged :
      (i : ℕ) (key : List ℕ) (t : Task)
      → s.callers i ≡ durable key t
      → ((view r).live t.id ≡ some (entry_of t)) × ((view r).keys key ≡ some t.id)
  pub only :
      (id : ℕ) (e : Entry)
      → (view r).live id ≡ some e
      → ((view s.queue).live id ≡ some e) ⊎ LoggedId s.callers id

module _ (s : Crowd) (o : Overlay) (flying : Flying (view s.queue) o s.callers) (once : IsOnce s)
    (r : Queue) (same : view r ≡ over (view s.queue) o) where
  only_logged :
      (id : ℕ) (e : Entry) (v : Option Entry)
      → (view s.queue).live id ≡ v
      → or_else v (o.live id) ≡ some e
      → ((view s.queue).live id ≡ some e) ⊎ LoggedId s.callers id
  only_logged id e none live x = inr (flying.from_id id (λ n. cc))
  only_logged id e (some y) live x = inl (live ∙ x)

  logged_there :
      (i : ℕ) (key : List ℕ) (t : Task)
      → s.callers i ≡ durable key t
      → ((view r).live t.id ≡ some (entry_of t)) × ((view r).keys key ≡ some t.id)
  logged_there i key t e =
      let (p, (f, live, keys)) = rw e at (flying.stands i) in
      (rw (same, f.no_live) live, rw (same, f.no_key) keys)

  over-Reopened : Reopened s r
  over-Reopened = record {
    live = λ id e x. rw (same, x) refl;
    dead = λ id. rw same refl;
    promised = λ i key id e k.
        let told : (view s.queue).keys key ≡ some id =
          unfold view in ((rw e at (once.agrees i)) k) in
        rw (same, told) refl;
    logged = logged_there;
    only = λ id e x. only_logged id e _ refl (rw same at x);
  }

-- A queue starts empty, and calls of Enqueue overlap in any way, with other calls between their parts;
-- no append has failed. Each Enqueue has a key that is not empty, an ID that is not in use, and neither
-- of them in common with an Enqueue that is between its parts; clocks and fields fit the log. Then, at
-- any time, NewQueue on the log, with a torn end or without one, and with any settings, returns a queue
-- that has every live task of the queue as it is there and the same dead ones, the ID of every Enqueue
-- that has returned under its key, and every task whose record the log has taken and that the queue
-- does not show yet; and no other live task. No record is longer than its frame can say, a retry count
-- has room in 32 bits, and sixteen bytes are read back as the UUID that they are.
pub overlap-Reopened :
    (from_bytes : List ℕ → Option ℕ) (clock : Queue → ℕ) (timeout max timeout' max' : ℕ) (s : Crowd)
    (torn : List ℕ) (turns : Turns (new_crowd (empty_queue timeout max)) s)
    → ReadsUuid from_bytes
    → max + 1 < 2 ^ 32
    → AllBring turns
    → AllFit s.queue.log
    → EndsLog torn
    → (r : Queue) × (new_queue from_bytes clock (frames s.queue.log ++ torn) timeout' max' ≡ ok r)
      × Reopened s r
unfolding new_queue view
overlap-Reopened from_bytes clock timeout max timeout' max' s torn turns reads room brings fits
      ends =
    let start = empty_queue timeout' max' in
    let h =
      Turns-IsLogged from_bytes clock reads start
        (new_crowd-IsLogged from_bytes clock reads timeout max timeout' max' room) turns brings in
    let r : Queue = record h.after { ready = heap_init h.after.cell h.after.ready } in
    (
      r,
      rw (
        replay-frames (apply_record from_bytes clock) s.queue.log torn start fits ends,
        h.replays,
      ),
      over-Reopened s h.overlay h.flying (Turns-IsOnce timeout max s turns) r h.same.holds,
    )
