-- ===== src/Queue/Durability/Enqueue.antt =====
-- Enqueue keeps the log, where no other caller comes between its parts (internal/queue/queue.go).
use gojobs.Prelude.{ℕ, ◌≡◌, refl, Bool, true, false, Option, some, none, List, arith}
use gojobs.Prelude.Map.{nat_eq, bytes_key}
use gojobs.Record.Payload
use gojobs.Record.Payload.{Record, EnqueuePayload}
use gojobs.Record.Encode.{body}
use gojobs.Record.RoundTrip.{Fits}
use gojobs.Queue.State.{Queue, go_on}
use gojobs.Queue.Methods.{enqueue, existing, admission, append_enqueue, make_visible}
use gojobs.Queue.Spec.{view, transition, new_entry}
use gojobs.Queue.Spec.Moves.{added}
use gojobs.Queue.Recovery.Refines.{Admits}
use gojobs.Queue.Durability.{IsSound, Keeps, silent, logged}
use gojobs.Queue.Durability.Ack.{Holds-self}

-- The fields of the record of an enqueue.
abbrev pub enqueue_fields : List ℕ → List ℕ → ℕ → ℕ → EnqueuePayload
enqueue_fields payload key id now = record {
  id = id;
  idempotency_key = key;
  payload = payload;
  enqueued_at = now;
  priority = 0;
}

module _ (q : Queue) (sound : IsSound q) (payload key : List ℕ) (id now : ℕ)
    (fits : Fits (Payload.enqueue (enqueue_fields payload key id now)))
    (fresh : Admits (view q) (Payload.enqueue (enqueue_fields payload key id now))) where
  enqueue_found :
      (syncs : Bool) (o : Option ℕ)
      → existing key q ≡ o
      → Keeps q (enqueue syncs payload key id now q).1
  unfolding enqueue body transition view
  enqueue_found syncs (some old) e =
      rw (e, admission, go_on, append_enqueue) (silent refl refl (Holds-self q sound))
  enqueue_found false none e =
      rw (e, admission, go_on, append_enqueue) (silent refl refl (Holds-self q sound))
  enqueue_found true none e =
      rw (e, admission, go_on, e, make_visible)
        (logged (Payload.enqueue (enqueue_fields payload key id now)) _ _ refl fits fresh
          (rw (e, transition)) refl refl
          (added q _ sound.well key (new_entry (enqueue_fields payload key id now)) refl refl
            (λ x. ground arith) fresh.1 refl refl)
          tt)

  -- Enqueue keeps the log: a key that was seen before changes nothing, and a new task is live.
  pub enqueue-Keeps : (syncs : Bool) → Keeps q (enqueue syncs payload key id now q).1
  enqueue-Keeps syncs = enqueue_found syncs _ refl
