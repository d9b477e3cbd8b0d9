-- ===== src/Queue/Overlap/Parts.antt =====
-- Each part of Enqueue, and what replaying the log gives after it (internal/queue/queue.go: Enqueue).
use gojobs.Prelude.{ℕ, ◌≡◌, ◌≢◌, refl, sym, ◌∙◌, ap, true, Option, some, none, List, arith}
use gojobs.Prelude.Map.{nat_eq, bytes_key}
use gojobs.Task.{Task, zero_task, state_ready}
use gojobs.Record.Payload
use gojobs.Record.Payload.{Record, EnqueuePayload, enqueue}
use gojobs.Record.Encode.{body}
use gojobs.Record.RoundTrip.{ReadsUuid, Fits}
use gojobs.Queue.State.{Queue, append}
use gojobs.Queue.Methods.{has_key, existing, admission, make_visible}
use gojobs.Queue.Recovery.Refines.{Admits}
use gojobs.Queue.Spec.{Durable, Entry, view, entry_of, transition}
use gojobs.Queue.Spec.Moves.{Holds, added}
use gojobs.Queue.Durability.{transition-IsBounded}
use gojobs.Queue.Durability.Enqueue.{enqueue_fields}
use gojobs.Queue.Overlap.{
  Caller, idle, waiting, durable, answered, Crowd, with_caller, after_start, after_append,
  after_finish,
}
use gojobs.Queue.Overlap.OneTask.{existing-none}
use gojobs.Queue.Overlap.Overlay.{Overlay, or_else, over}
use gojobs.Queue.Overlap.Flying.{flight, Stands, Flying}
use gojobs.Queue.Overlap.Joined.{
  joined, pending, shown, transition-joined, over-pending, over-shown,
}
use gojobs.Queue.Overlap.Moves.{Flying-apart, Flying-pending, Flying-shown}
use gojobs.Queue.Overlap.Logged.{IsLogged, replayed}

-- What a call brings: a key that is not empty, fields that fit the record, an ID that is not in use,
-- and nothing that a call between its parts has too.
pub record IsApart (s : Crowd) (payload key : List ℕ) (id now : ℕ) : Type 0 where
  pub named : has_key key ≡ true
  pub fits : Fits (Payload.enqueue (enqueue_fields payload key id now))
  pub fresh : Admits (view s.queue) (Payload.enqueue (enqueue_fields payload key id now))
  pub rivals :
      (j : ℕ) (key' : List ℕ) (t : Task)
      → flight (s.callers j) ≡ some (key', t)
      → (key ≢ key') × (id ≢ t.id)

module _ (s : Crowd) (d : Durable) (o : Overlay) (h : Flying d o s.callers) (payload key : List ℕ)
    (id now : ℕ) (brings : IsApart s payload key id now) where
  pending_id : (v : Option Entry) → o.live id ≡ v → o.live id ≡ none
  pending_id none e = e
  pending_id (some x) e =
      let l = h.from_id id (λ n. cc) in
      absurd ((brings.rivals l.caller l.key l.task (ap flight l.stands)).1 (sym l.own_id))

  pending_key : (v : Option ℕ) → o.keys key ≡ v → o.keys key ≡ none
  pending_key none e = e
  pending_key (some x) e =
      let l = h.from_key key (λ n. cc) in
      absurd ((brings.rivals l.caller key l.task (ap flight l.stands)).0 refl)

module _ (from_bytes : List ℕ → Option ℕ) (clock : Queue → ℕ) (reads : ReadsUuid from_bytes)
    (start : Queue) (s : Crowd) (h : IsLogged from_bytes clock reads start s) (i : ℕ) where
  -- Nothing but the caller changes.
  abbrev left : Caller → Crowd
  left c = with_caller i s (c, s.queue)

  left-IsLogged :
      (c : Caller)
      → Flying (view s.queue) h.overlay (left c).callers
      → IsLogged from_bytes clock reads start (left c)
  left-IsLogged c flying = record {
    sound = h.sound;
    overlay = h.overlay;
    after = h.after;
    replays = h.replays;
    same = h.same;
    flying = flying;
  }

  pub start_found-IsLogged :
      (payload key : List ℕ) (id now : ℕ) (o : Option ℕ)
      → existing key s.queue ≡ o
      → s.callers i ≡ idle
      → IsApart s payload key id now
      → IsLogged from_bytes clock reads start
          (with_caller i s (after_start key (admission payload key id now o s.queue)))
  unfolding admission body view
  start_found-IsLogged payload key id now (some old) e begun brings =
      left-IsLogged (answered key old) (
        Flying-apart (view s.queue) h.overlay s.callers h.flying i (answered key old) (λ k t x. cc)
          tt (λ j k k' t t' ne x y. record { keys = λ z. cc; ids = λ z. cc }))
  start_found-IsLogged payload key id now none e begun brings =
      let t : Task = record zero_task {
        id = id;
        idempotency_key = key;
        payload = payload;
        status = state_ready;
        enqueued_at = now;
      } in
      left-IsLogged (waiting key t _) (
        Flying-apart (view s.queue) h.overlay s.callers h.flying i (waiting key t _) (λ k t x. cc)
          (
            enqueue_fields payload key id now,
            (
              record {
                named = brings.named;
                own_key = refl;
                says = refl;
                fits = brings.fits;
                no_key = existing-none key s.queue e brings.named;
                no_live = brings.fresh.0;
                no_dead = brings.fresh.1;
              },
              refl,
              pending_id s (view s.queue) h.overlay h.flying payload key id now brings _ refl,
              pending_key s (view s.queue) h.overlay h.flying payload key id now brings _ refl,
            ),
          )
          (λ j k k' t1 t' ne x y.
            let apart = brings.rivals j k' t' y in
            record {
              keys = λ z. apart.0 (grind (arith, x, z));
              ids = λ z. apart.1 (grind (arith, x, z));
            }))

  pub append_found-IsLogged :
      (key : List ℕ) (t : Task) (rec : List ℕ)
      → s.callers i ≡ waiting key t rec
      → Stands (view s.queue) h.overlay (waiting key t rec)
      → IsLogged from_bytes clock reads start
          (with_caller i s (after_append key t (append true rec s.queue)))
  unfolding append view
  append_found-IsLogged key t rec stands (p, (f, eb, live, keys)) =
      let d = view s.queue in
      let o = h.overlay in
      let id : t.id ≡ p.id = ap (λ e. e.id) f.says in
      let free : or_else (d.live t.id) (o.live t.id) ≡ none = rw (f.no_live, live) refl in
      let new_key : (over d o).keys key ≡ none = rw (f.no_key, keys) refl in
      let step : transition (over d o) (enqueue p) ≡ some (over d (pending o key t)) =
        transition-joined (over d o) key t p f.says f.own_key new_key
        ∙ ap some (over-pending d o key t f.no_live f.no_key) in
      let more =
        replayed from_bytes clock reads start s h (enqueue p) rec (over d (pending o key t)) eb
          f.fits (rw id at free, rw id at f.no_dead) step in
      record {
        sound = record {
          well = record {
            index_id = h.sound.well.index_id;
            dlq_id = h.sound.well.dlq_id;
            index_next = h.sound.well.index_next;
            dlq_next = h.sound.well.dlq_next;
            apart = h.sound.well.apart;
          };
          bounded = h.sound.bounded;
          room = h.sound.room;
        };
        overlay = pending o key t;
        after = more.after;
        replays = more.replays;
        same = more.same;
        flying = Flying-pending d o s.callers h.flying i key t p f (ap flight stands) (λ k t x. cc);
      }

  pub finish_found-IsLogged :
      (key : List ℕ) (t : Task) (o : Option ℕ)
      → existing key s.queue ≡ o
      → s.callers i ≡ durable key t
      → Stands (view s.queue) h.overlay (durable key t)
      → IsLogged from_bytes clock reads start
          (with_caller i s (after_finish key (make_visible key t o s.queue)))
  unfolding make_visible view existing
  finish_found-IsLogged key t (some old) e stands (p, (f, live, keys)) =
      let none_yet = f.no_key in absurd (grind (arith, e, f.no_key, f.named))
  finish_found-IsLogged key t none e stands (p, (f, live, keys)) =
      let d = view s.queue in
      let o = h.overlay in
      let q' = (make_visible key t none s.queue).1 in
      let held : Holds q' (joined d key t) =
        added s.queue q' h.sound.well key (entry_of t) refl refl (λ x. ground arith) f.no_dead refl
          refl in
      let step : transition d (enqueue p) ≡ some (joined d key t) =
        transition-joined d key t p f.says f.own_key f.no_key in
      record {
        sound = record {
          well = held.well;
          bounded = rw held.holds (
              transition-IsBounded s.queue.max_retries d (joined d key t) (enqueue p)
                h.sound.bounded f.fits tt step);
          room = h.sound.room;
        };
        overlay = shown o key t;
        after = h.after;
        replays = h.replays;
        same = record {
          holds =
              h.same.holds
              ∙ sym (over-shown d o key t f.no_live f.no_key live keys)
              ∙ ap (λ d. over d (shown o key t)) (sym held.holds);
          well = h.same.well;
        };
        flying =
            rw held.holds
              (Flying-shown d o s.callers h.flying i key t p f (ap flight stands) stands);
      }
