-- ===== src/Queue/Durability/Restarted.antt =====
-- The ready list of a queue that was opened again (internal/queue/queue.go: NewQueue).
use gojobs.Prelude.{ℕ, ◌+◌, ◌^◌, ◌<◌, ◌≡◌, Option, some, List, ◌++◌, arith}
use gojobs.Prelude.Run.{ok}
use gojobs.Prelude.Array.{times}
use gojobs.Prelude.Map.{nat_eq, lookup}
use gojobs.Record.RoundTrip.{ReadsUuid}
use gojobs.Wal.Replay.{frames, AllFit, EndsLog, replay-frames}
use gojobs.ReadyHeap.{heap_init}
use gojobs.ReadyHeap.Items.{heap_init-SameItems}
use gojobs.ReadyHeap.Order.{IsHeap}
use gojobs.ReadyHeap.Root.{heap_init-IsHeap}
use gojobs.Queue.State.{Queue, empty_queue}
use gojobs.Queue.Recovery.{new_queue, apply_record}
use gojobs.Queue.Recovery.Listed.{IsListed}
use gojobs.Queue.Durability.Recovered.{
  Reach, AllTaken, IsSound-empty, Recovered-empty, Reach-Recovered,
}

-- The ready list is a heap of all live tasks, each once, and of nothing else.
pub record AllReady (q : Queue) : Type 0 where
  pub heap : IsHeap q.cell q.ready
  pub live : (id p : ℕ) → lookup id q.index ≡ some p → times p q.ready ≡ 1
  pub ready : (p : ℕ) → 0 < times p q.ready → lookup (q.cell p).id q.index ≡ some p

IsListed-AllReady :
    (q : Queue) → IsListed q → AllReady (record q { ready = heap_init q.cell q.ready })
IsListed-AllReady q h =
    let items = heap_init-SameItems q.cell q.ready in
    record {
      heap = heap_init-IsHeap q.cell q.ready;
      live = λ id p e. omega (arith, items p, h.once p, h.live_ready id p e);
      ready = λ p e. h.ready_live p (omega (arith, items p));
    }

-- A queue started empty, after any calls, one at a time, each Enqueue with an ID that is not in use and
-- no append failing, was lost with its leases. NewQueue on its log, with a torn end or without one, and with any settings,
-- returns a queue whose ready list is a heap of all its live tasks, each once, and of nothing else,
-- if no record is longer than its frame can say, a retry count has room in 32 bits, and sixteen bytes
-- are read back as the UUID that they are.
pub restart-AllReady :
    (from_bytes : List ℕ → Option ℕ) (clock : Queue → ℕ) (timeout max timeout' max' : ℕ) (q : Queue)
    (torn : List ℕ)
    → ReadsUuid from_bytes
    → max + 1 < 2 ^ 32
    → (reach : Reach (empty_queue timeout max) q) → AllTaken reach
    → AllFit q.log
    → EndsLog torn
    → (r : Queue) × (new_queue from_bytes clock (frames q.log ++ torn) timeout' max' ≡ ok r)
      × AllReady r
unfolding new_queue
restart-AllReady from_bytes clock timeout max timeout' max' q torn reads room reach taken fits
      ends =
    let start = empty_queue timeout' max' in
    let c =
      Reach-Recovered from_bytes clock reads start (IsSound-empty timeout max room)
        (Recovered-empty from_bytes clock timeout max timeout' max') reach taken in
    (
      record c.after { ready = heap_init c.after.cell c.after.ready },
      rw (replay-frames (apply_record from_bytes clock) q.log torn start fits ends, c.replays),
      IsListed-AllReady c.after c.listed,
    )
