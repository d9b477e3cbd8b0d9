-- ===== src/Queue/Overlap/Overlay.antt =====
-- What the log holds while calls of Enqueue are between their parts: the tasks of the queue, and those
-- whose record the log has taken and that no caller can see yet (internal/queue/queue.go: Enqueue).
use gojobs.Prelude.{
  ℕ, ◌+◌, ◌≡◌, refl, sym, ap, ◌∙◌, Option, some, none, List, ◌==◌, arith, Bool-cases, inl, inr,
}
use gojobs.Clock.{zero_time}
use gojobs.Record.Payload.{
  Record, DequeuePayload, RetryPayload, DeadPayload, RequeuePayload, enqueue, dequeue, ack, retry,
  dead, requeue, purge,
}
use gojobs.Queue.Spec.{Durable, Entry, Durable_path, change, transition}
use gojobs.Queue.Durability.{IsOld}

pub record Overlay : Type 0 where
  pub live : ℕ → Option Entry
  pub keys : List ℕ → Option ℕ

abbrev pub or_else {ℓ} : {A : Type ℓ} → Option A → Option A → Option A
or_else (some a) o = some a
or_else none o = o

abbrev pub over : Durable → Overlay → Durable
over d o = record {
  live = λ id. or_else (d.live id) (o.live id);
  dead_ones = d.dead_ones;
  keys = λ key. or_else (d.keys key) (o.keys key);
}

-- The tasks that are not visible yet have IDs and keys of their own.
pub record Apart (d : Durable) (o : Overlay) : Type 0 where
  pub ids : (id : ℕ) (e : Entry) → o.live id ≡ some e → (d.live id ≡ none) × (d.dead_ones id ≡ none)
  pub keys : (key : List ℕ) (id : ℕ) → o.keys key ≡ some id → d.keys key ≡ none

or_else-none : {A : Type 0} (v : Option A) → or_else v none ≡ v
or_else-none none = refl
or_else-none (some v) = refl

-- What each record does where it names a task that is there.
module _ (d : Durable) (e : Entry) where
  dequeued : (p : DequeuePayload) → d.live p.id ≡ some e → transition d (dequeue p) ≡ some d
  unfolding transition
  dequeued p l = rw (l, transition) refl

  retried :
      (p : RetryPayload)
      → d.live p.id ≡ some e
      → transition d (retry p)
        ≡ some
            (record d { live = change d.live p.id (some (record e { retries = e.retries + 1 })) })
  unfolding transition
  retried p l = rw (l, transition) refl

  buried :
      (p : DeadPayload)
      → d.live p.id ≡ some e
      → transition d (dead p)
        ≡ some (record d {
          live = change d.live p.id none;
          dead_ones =
              change d.dead_ones p.id
                (some (record e { retries = p.retries; failed_at = p.failed_at }));
        })
  unfolding transition
  buried p l = rw (l, transition) refl

  revived :
      (p : RequeuePayload)
      → d.dead_ones p.id ≡ some e
      → transition d (requeue p)
        ≡ some (record d {
          dead_ones = change d.dead_ones p.id none;
          live = change d.live p.id (some (record e { retries = 0; failed_at = zero_time }));
        })
  unfolding transition
  revived p l = rw (l, transition) refl

over-change :
    (f g : ℕ → Option Entry) (id : ℕ) (v : Option Entry) (j : ℕ)
    → g id ≡ none
    → change (λ i. or_else (f i) (g i)) id v j ≡ or_else (change f id v j) (g j)
over-change f g id v j away = elim (Bool-cases (id == j)) [
  | inl e ↦ let same : g j ≡ none = grind (arith, away, e) in rw (e, same) (sym (or_else-none v))
  | inr e ↦ rw e refl
]

module _ (d : Durable) (o : Overlay) (h : Apart d o) where
  live_away :
      (id : ℕ) (e : Entry)
      → d.live id ≡ some e
      → (x : Option Entry) → o.live id ≡ x
      → o.live id ≡ none
  live_away id e l none f = f
  live_away id e l (some x) f = let away = (h.ids id x f).0 in cc

  dead_away :
      (id : ℕ) (e : Entry)
      → d.dead_ones id ≡ some e
      → (x : Option Entry) → o.live id ≡ x
      → o.live id ≡ none
  dead_away id e l none f = f
  dead_away id e l (some x) f = let away = (h.ids id x f).1 in cc

  ack-over :
      (id : ℕ) (e : Entry)
      → d.live id ≡ some e
      → record (over d o) { live = change (over d o).live id none }
        ≡ over (record d { live = change d.live id none }) o
  ack-over id e l =
      Durable_path (λ j. over-change d.live o.live id none j (live_away id e l _ refl)) (λ j. refl)
        (λ k. refl)

  -- A record that names a task of the queue does the same to it, and leaves the others.
  module _ (d' : Durable) where
    retry_at :
        (p : RetryPayload) (x : Option Entry)
        → d.live p.id ≡ x
        → transition d (retry p) ≡ some d'
        → transition (over d o) (retry p) ≡ some (over d' o)
    retry_at p none l e =
        let stuck : transition d (retry p) ≡ none = unfold transition in rw (l, transition) refl in
        cc
    retry_at p (some x) l e =
        let after : Durable = record d {
          live = change d.live p.id (some (record x { retries = x.retries + 1 }));
        } in
        let same : after ≡ d' = let step = sym (retried d x p l) ∙ e in cc in
        retried (over d o) x p (ap (λ y. or_else y (o.live p.id)) l)
        ∙ ap some (
            Durable_path (λ j. over-change d.live o.live p.id _ j (live_away p.id x l _ refl))
              (λ j. refl) (λ k. refl))
        ∙ ap (λ d. some (over d o)) same

    dequeue_at :
        (p : DequeuePayload) (x : Option Entry)
        → d.live p.id ≡ x
        → transition d (dequeue p) ≡ some d'
        → transition (over d o) (dequeue p) ≡ some (over d' o)
    dequeue_at p none l e =
        let stuck : transition d (dequeue p) ≡ none =
          unfold transition in rw (l, transition) refl in
        cc
    dequeue_at p (some x) l e =
        let same : d ≡ d' = let step = sym (dequeued d x p l) ∙ e in cc in
        dequeued (over d o) x p (ap (λ y. or_else y (o.live p.id)) l)
        ∙ ap (λ d. some (over d o)) same

    dead_at :
        (p : DeadPayload) (x : Option Entry)
        → d.live p.id ≡ x
        → transition d (dead p) ≡ some d'
        → transition (over d o) (dead p) ≡ some (over d' o)
    dead_at p none l e =
        let stuck : transition d (dead p) ≡ none = unfold transition in rw (l, transition) refl in
        cc
    dead_at p (some x) l e =
        let after : Durable = record d {
          live = change d.live p.id none;
          dead_ones =
              change d.dead_ones p.id
                (some (record x { retries = p.retries; failed_at = p.failed_at }));
        } in
        let same : after ≡ d' = let step = sym (buried d x p l) ∙ e in cc in
        buried (over d o) x p (ap (λ y. or_else y (o.live p.id)) l)
        ∙ ap some (
            Durable_path (λ j. over-change d.live o.live p.id _ j (live_away p.id x l _ refl))
              (λ j. refl) (λ k. refl))
        ∙ ap (λ d. some (over d o)) same

    requeue_at :
        (p : RequeuePayload) (x : Option Entry)
        → d.dead_ones p.id ≡ x
        → transition d (requeue p) ≡ some d'
        → transition (over d o) (requeue p) ≡ some (over d' o)
    requeue_at p none l e =
        let stuck : transition d (requeue p) ≡ none =
          unfold transition in rw (l, transition) refl in
        cc
    requeue_at p (some x) l e =
        let after : Durable = record d {
          dead_ones = change d.dead_ones p.id none;
          live = change d.live p.id (some (record x { retries = 0; failed_at = zero_time }));
        } in
        let same : after ≡ d' = let step = sym (revived d x p l) ∙ e in cc in
        revived (over d o) x p l
        ∙ ap some (
            Durable_path (λ j. over-change d.live o.live p.id _ j (dead_away p.id x l _ refl))
              (λ j. refl) (λ k. refl))
        ∙ ap (λ d. some (over d o)) same

    pub transition-over :
        (r : Record)
        → IsOld d r
        → transition d r ≡ some d'
        → transition (over d o) r ≡ some (over d' o)
    transition-over (enqueue p) old e = absurd old
    transition-over (dequeue p) old e = dequeue_at p _ refl e
    transition-over (ack p) (x, l) e =
        unfold transition in
        (let same : record d { live = change d.live p.id none } ≡ d' = cc in
          ap some (ack-over p.id x l) ∙ ap (λ d. some (over d o)) same)
    transition-over (retry p) old e = retry_at p _ refl e
    transition-over (dead p) old e = dead_at p _ refl e
    transition-over (requeue p) old e = requeue_at p _ refl e
    transition-over (purge p) old e =
        unfold transition in
        (let same : record d { dead_ones = change d.dead_ones p.id none } ≡ d' = cc in
          ap (λ d. some (over d o)) same)
