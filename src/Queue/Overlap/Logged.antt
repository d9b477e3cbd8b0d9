-- ===== src/Queue/Overlap/Logged.antt =====
-- What replaying the log gives while calls of Enqueue overlap (internal/queue/queue.go: Enqueue,
-- applyRecord).
use gojobs.Prelude.{ℕ, ◌≡◌, ◌∙◌, Option, some, List, [], ◌∷◌, ◌++◌}
use gojobs.Prelude.Run.{ok}
use gojobs.Prelude.Map.{nat_eq, bytes_key}
use gojobs.Record.Payload.{Record}
use gojobs.Record.Encode.{body}
use gojobs.Record.Decode.{decode_record}
use gojobs.Record.RoundTrip.{ReadsUuid, Fits, decode_record-body}
use gojobs.Wal.Replay.{apply_all}
use gojobs.Queue.State.{Queue}
use gojobs.Queue.Recovery.{apply_record}
use gojobs.Queue.Recovery.Refines.{Admits, apply_op-refines}
use gojobs.Queue.Spec.{Durable, view, transition}
use gojobs.Queue.Spec.Moves.{Holds}
use gojobs.Queue.Durability.{IsSound, Amends, quiet, noted, Amends-Keeps, Keeps-IsSound}
use gojobs.Queue.Durability.Recovered.{apply_all-append, apply_record-decoded}
use gojobs.Queue.Overlap.{Crowd}
use gojobs.Queue.Overlap.Overlay.{Overlay, over, transition-over}
use gojobs.Queue.Overlap.Flying.{Flying, Flying-Apart, Flying-Stays}
use gojobs.Queue.Overlap.Joined.{old-Stays, old-Admits}

module _ (from_bytes : List ℕ → Option ℕ) (clock : Queue → ℕ) (reads : ReadsUuid from_bytes)
    (start : Queue) where
  -- Replaying the log gives the tasks of the queue, and those that the log has and the queue has not.
  pub record IsLogged (s : Crowd) : Type 0 where
    pub sound : IsSound s.queue
    pub overlay : Overlay
    pub after : Queue
    pub replays : apply_all (apply_record from_bytes clock) s.queue.log start ≡ ok after
    pub same : Holds after (over (view s.queue) overlay)
    pub flying : Flying (view s.queue) overlay s.callers

  -- One more record on the log.
  pub record Replayed (log : List (List ℕ)) (d : Durable) : Type 0 where
    pub after : Queue
    pub replays : apply_all (apply_record from_bytes clock) log start ≡ ok after
    pub same : Holds after d

  pub replayed :
      (s : Crowd) (h : IsLogged s) (r : Record) (b : List ℕ) (d : Durable)
      → body r ≡ ok b
      → Fits r
      → Admits (over (view s.queue) h.overlay) r
      → transition (over (view s.queue) h.overlay) r ≡ some d
      → Replayed (s.queue.log ++ b ∷ []) d
  replayed s h r b d eb fits admits step =
      let (after, applied, held) =
        apply_op-refines clock h.after h.same.well r (rw h.same.holds admits)
          (rw h.same.holds step) in
      let decoded : decode_record from_bytes b ≡ ok r =
        rw eb at (decode_record-body from_bytes reads r fits) in
      record {
        after = after;
        replays =
            apply_all-append (apply_record from_bytes clock) s.queue.log b start h.after h.replays
              (apply_record-decoded from_bytes clock h.after b r decoded ∙ applied);
        same = held;
      }

  pub called-IsLogged :
      (s : Crowd) (q' : Queue) → IsLogged s → Amends s.queue q' → IsLogged (record s { queue = q' })
  called-IsLogged s q' h (quiet log max held) = record {
    sound = Keeps-IsSound h.sound (Amends-Keeps (quiet log max held));
    overlay = h.overlay;
    after = h.after;
    replays = rw log h.replays;
    same = rw held.holds h.same;
    flying = rw held.holds h.flying;
  }
  called-IsLogged s q' h (noted r b d eb fits admits step log max held allowed old) =
      let apart = Flying-Apart (view s.queue) h.overlay s.callers h.flying in
      let stepped = transition-over (view s.queue) h.overlay apart d r old step in
      let more =
        replayed s h r b (over d h.overlay) eb fits
          (old-Admits (view s.queue) (over (view s.queue) h.overlay) r old) stepped in
      record {
        sound =
            Keeps-IsSound h.sound
              (Amends-Keeps (noted r b d eb fits admits step log max held allowed old));
        overlay = h.overlay;
        after = more.after;
        replays = rw log more.replays;
        same = rw held.holds more.same;
        flying = rw held.holds (
            Flying-Stays (view s.queue) h.overlay s.callers h.flying d
              (λ key id. old-Stays (view s.queue) d key id h.overlay r old step));
      }
