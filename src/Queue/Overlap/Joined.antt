-- ===== src/Queue/Overlap/Joined.antt =====
-- A new task joins what the log holds, and later what the queue holds (internal/queue/queue.go: Enqueue).
use gojobs.Prelude.{
  ℕ, ◌≡◌, refl, sym, ◌∙◌, ap, Option, some, none, List, ◌==◌, arith, if◌then◌else◌, Bool-cases, inl,
  inr, bytes_eq, bytes_eq_iff,
}
use gojobs.Task.{Task}
use gojobs.Record.Payload.{
  Record, EnqueuePayload, enqueue, dequeue, ack, retry, dead, requeue, purge,
}
use gojobs.Queue.Methods.{has_key}
use gojobs.Queue.Recovery.Refines.{Admits}
use gojobs.Queue.Spec.{
  Durable, Durable_path, change, change_key, entry_of, new_entry, seen, add_entry, transition,
}
use gojobs.Queue.Durability.{IsOld}
use gojobs.Queue.Overlap.Overlay.{Overlay, over}
use gojobs.Queue.Overlap.Flying.{Stays}

-- The task is live, and its key leads to it.
abbrev pub joined : Durable → List ℕ → Task → Durable
joined d key t = record d {
  live = change d.live t.id (some (entry_of t));
  keys = change_key d.keys key t.id;
}

-- The log has its record, and the queue does not have it yet.
abbrev pub pending : Overlay → List ℕ → Task → Overlay
pending o key t = record {
  live = change o.live t.id (some (entry_of t));
  keys = change_key o.keys key t.id;
}

abbrev pub without_key : (List ℕ → Option ℕ) → List ℕ → List ℕ → Option ℕ
without_key f key k = if bytes_eq key k then none else f k

abbrev pub shown : Overlay → List ℕ → Task → Overlay
shown o key t = record { live = change o.live t.id none; keys = without_key o.keys key }

pub transition-joined :
    (d : Durable) (key : List ℕ) (t : Task) (p : EnqueuePayload)
    → entry_of t ≡ new_entry p
    → t.idempotency_key ≡ key
    → d.keys key ≡ none
    → transition d (enqueue p) ≡ some (joined d key t)
unfolding transition add_entry
transition-joined d key t p says own absent =
    let id : p.id ≡ t.id = ap (λ e. e.id) (sym says) in
    let entry : new_entry p ≡ entry_of t = sym says in
    let name : p.idempotency_key ≡ key = ap (λ e. e.idempotency_key) (sym says) ∙ own in
    let unseen : seen d p.idempotency_key ≡ none = elim (Bool-cases (has_key p.idempotency_key)) [
      | inl k ↦ rw (k, name) absent
      | inr k ↦ rw k refl
    ] in
    rw (unseen, transition)
      (λ i. some (record d {
        live = change d.live (id i) (some (entry i));
        keys = change_key d.keys (name i) (id i);
      }))

module _ (d : Durable) (o : Overlay) (key : List ℕ) (t : Task) (no_live : d.live t.id ≡ none)
    (no_key : d.keys key ≡ none) where
  pub over-pending : joined (over d o) key t ≡ over d (pending o key t)
  over-pending =
      Durable_path
        (λ j. elim (Bool-cases (t.id == j)) [
          | inl e ↦ grind (arith, e, no_live)
          | inr e ↦ rw e refl
        ])
        (λ j. refl)
        (λ k. elim (Bool-cases (bytes_eq key k)) [
          | inl e ↦ grind (arith, bytes_eq_iff key k, e, no_key)
          | inr e ↦ rw e refl
        ])

  pub over-shown :
      o.live t.id ≡ some (entry_of t)
      → o.keys key ≡ some t.id
      → over (joined d key t) (shown o key t) ≡ over d o
  over-shown live keys =
      Durable_path
        (λ j. elim (Bool-cases (t.id == j)) [
          | inl e ↦ grind (arith, e, no_live, live)
          | inr e ↦ rw e refl
        ])
        (λ j. refl)
        (λ k. elim (Bool-cases (bytes_eq key k)) [
          | inl e ↦ grind (arith, bytes_eq_iff key k, e, no_key, keys)
          | inr e ↦ rw e refl
        ])

-- A record that is not an ENQUEUE brings no task and no key.
module _ (d d' : Durable) (key : List ℕ) (id : ℕ) where
  old-keys : (r : Record) → IsOld d r → transition d r ≡ some d' → d'.keys key ≡ d.keys key
  unfolding transition
  old-keys (enqueue p) old h = absurd old
  old-keys _ old h = grind (arith, h)

  old-live :
      (r : Record)
      → IsOld d r
      → transition d r ≡ some d'
      → d.live id ≡ none
      → d.dead_ones id ≡ none
      → d'.live id ≡ none
  unfolding transition
  old-live (enqueue p) old h l x = absurd old
  old-live _ old h l x = grind (arith, h, l, x)

  old-dead :
      (r : Record)
      → IsOld d r
      → transition d r ≡ some d'
      → d.live id ≡ none
      → d.dead_ones id ≡ none
      → d'.dead_ones id ≡ none
  unfolding transition
  old-dead (enqueue p) old h l x = absurd old
  old-dead _ old h l x = grind (arith, h, l, x)

  pub old-Stays :
      (o : Overlay) (r : Record) → IsOld d r → transition d r ≡ some d' → Stays d d' o o key id
  old-Stays o r old h = record {
    keys = λ e. old-keys r old h ∙ e;
    away = λ l x. (old-live r old h l x, old-dead r old h l x);
    same_live = refl;
    same_keys = refl;
  }

pub old-Admits : (d d' : Durable) (r : Record) → IsOld d r → Admits d' r
old-Admits d d' (enqueue p) old = absurd old
old-Admits d d' (dequeue p) old = tt
old-Admits d d' (ack p) old = tt
old-Admits d d' (retry p) old = tt
old-Admits d d' (dead p) old = tt
old-Admits d d' (requeue p) old = tt
old-Admits d d' (purge p) old = tt
