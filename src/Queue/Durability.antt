-- ===== src/Queue/Durability.antt =====
-- What it means that a method keeps the log (internal/queue/queue.go): either it changes nothing
-- that the log must know, or it appends one record, which says what it changed.
pub mod Ack
pub mod Retry
pub mod Enqueue
pub mod DeadLetter
pub mod Recovered
pub mod Restarted
use gojobs.Prelude.{
  ℕ, ◌+◌, ◌^◌, ◌<◌, ◌≤◌, ◌≡◌, refl, Option, some, none, List, [], ◌∷◌, ◌++◌, ◌==◌, if◌then◌else◌,
  arith,
}
use gojobs.Prelude.Run.{Run, ok}
use gojobs.Record.Payload.{
  Record, EnqueuePayload, enqueue, dequeue, ack, retry, dead, requeue, purge,
}
use gojobs.Record.Encode.{body}
use gojobs.Record.RoundTrip.{Fits}
use gojobs.Queue.State.{Queue}
use gojobs.Queue.Spec.{Durable, Entry, view, transition, add_entry, new_entry, seen, change, IsWell}
use gojobs.Queue.Spec.Moves.{Holds}
use gojobs.Queue.Recovery.Refines.{Admits}

-- A UUID has sixteen bytes, and a task that is still live has a retry left.
pub record IsBounded (max_retries : ℕ) (d : Durable) : Type 0 where
  pub live_id : (id : ℕ) (e : Entry) → d.live id ≡ some e → id < 2 ^ 128
  pub dead_id : (id : ℕ) (e : Entry) → d.dead_ones id ≡ some e → id < 2 ^ 128
  pub live_retries : (id : ℕ) (e : Entry) → d.live id ≡ some e → e.retries ≤ max_retries

pub record IsSound (q : Queue) : Type 0 where
  pub well : IsWell q
  pub bounded : IsBounded q.max_retries (view q)
  pub room : q.max_retries + 1 < 2 ^ 32

-- A retry is logged only for a task that has one left.
abbrev pub IsAllowed : ℕ → Durable → Record → Type 0
IsAllowed max_retries d (retry p) = (e : Entry) → d.live p.id ≡ some e → e.retries + 1 ≤ max_retries
IsAllowed max_retries d _ = Unit

pub data Keeps (q q' : Queue) : Type 0 where
  silent : q'.log ≡ q.log → q'.max_retries ≡ q.max_retries → Holds q' (view q) → Keeps q q'
  logged :
      (r : Record) (b : List ℕ) (d : Durable)
      → body r ≡ ok b
      → Fits r
      → Admits (view q) r
      → transition (view q) r ≡ some d
      → q'.log ≡ q.log ++ b ∷ []
      → q'.max_retries ≡ q.max_retries
      → Holds q' d
      → IsAllowed q.max_retries (view q) r
      → Keeps q q'

-- The record names a task that is there, and is not an ENQUEUE.
abbrev pub IsOld : Durable → Record → Type 0
IsOld d (enqueue p) = ⊥
IsOld d (ack p) = (e : Entry) × (d.live p.id ≡ some e)
IsOld d _ = Unit

-- What a call other than Enqueue does: nothing that the log must know, or what an old record says.
pub data Amends (q q' : Queue) : Type 0 where
  quiet : q'.log ≡ q.log → q'.max_retries ≡ q.max_retries → Holds q' (view q) → Amends q q'
  noted :
      (r : Record) (b : List ℕ) (d : Durable)
      → body r ≡ ok b
      → Fits r
      → Admits (view q) r
      → transition (view q) r ≡ some d
      → q'.log ≡ q.log ++ b ∷ []
      → q'.max_retries ≡ q.max_retries
      → Holds q' d
      → IsAllowed q.max_retries (view q) r
      → IsOld (view q) r
      → Amends q q'

pub Amends-Keeps : {q q' : Queue} → Amends q q' → Keeps q q'
Amends-Keeps (quiet log max h) = silent log max h
Amends-Keeps (noted r b d eb fits admits step log max h allowed old) =
    logged r b d eb fits admits step log max h allowed

module _ (max_retries : ℕ) (d : Durable) (bounded : IsBounded max_retries d) {d' : Durable} (j : ℕ)
    (e : Entry) where
  live_id-step : (r : Record) → Fits r → transition d r ≡ some d' → d'.live j ≡ some e → j < 2 ^ 128
  unfolding transition
  live_id-step (enqueue p) fits h x = grind (arith, bounded.live_id, fits.0)
  live_id-step _ fits h x = grind (arith, bounded.live_id, bounded.dead_id)

  dead_id-step :
      (r : Record) → Fits r → transition d r ≡ some d' → d'.dead_ones j ≡ some e → j < 2 ^ 128
  unfolding transition
  dead_id-step (enqueue p) fits h x = grind (arith, bounded.dead_id)
  dead_id-step _ fits h x = grind (arith, bounded.live_id, bounded.dead_id)

  live_retries-step :
      (r : Record)
      → IsAllowed max_retries d r
      → transition d r ≡ some d'
      → d'.live j ≡ some e
      → e.retries ≤ max_retries
  unfolding transition
  live_retries-step (retry p) allowed h x = grind (arith, bounded.live_retries, allowed)
  live_retries-step _ allowed h x = grind (arith, bounded.live_retries)

pub transition-IsBounded :
    (max_retries : ℕ) (d d' : Durable) (r : Record)
    → IsBounded max_retries d
    → Fits r
    → IsAllowed max_retries d r
    → transition d r ≡ some d'
    → IsBounded max_retries d'
transition-IsBounded max_retries d d' r bounded fits allowed h = record {
  live_id = λ j e. live_id-step max_retries d bounded j e r fits h;
  dead_id = λ j e. dead_id-step max_retries d bounded j e r fits h;
  live_retries = λ j e. live_retries-step max_retries d bounded j e r allowed h;
}

pub Keeps-IsSound : {q q' : Queue} → IsSound q → Keeps q q' → IsSound q'
Keeps-IsSound {q} {q'} s (silent log max h) = record {
  well = h.well;
  bounded = rw (h.holds, max) s.bounded;
  room = rw max s.room;
}
Keeps-IsSound {q} {q'} s (logged r b d eb fits admits step log max h allowed) = record {
  well = h.well;
  bounded =
      rw (h.holds, max)
        (transition-IsBounded q.max_retries (view q) d r s.bounded fits allowed step);
  room = rw max s.room;
}
