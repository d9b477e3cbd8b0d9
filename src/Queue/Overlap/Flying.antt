-- ===== src/Queue/Overlap/Flying.antt =====
-- Calls of Enqueue that stand between their parts (internal/queue/queue.go: Enqueue).
use gojobs.Prelude.{
  ℕ, ◌≡◌, ◌≢◌, refl, sym, ◌∙◌, true, false, Option, some, none, List, ◌==◌, arith, if◌then◌else◌,
  Bool-cases, inl, inr,
}
use gojobs.Prelude.Run.{ok}
use gojobs.Task.{Task}
use gojobs.Record.Payload.{EnqueuePayload, enqueue}
use gojobs.Record.Encode.{body}
use gojobs.Record.RoundTrip.{Fits}
use gojobs.Queue.Methods.{has_key}
use gojobs.Queue.Spec.{Durable, entry_of, new_entry}
use gojobs.Queue.Overlap.{Caller, idle, waiting, durable, answered, failed}
use gojobs.Queue.Overlap.Overlay.{Overlay, Apart}

-- The key and the task of a call that is between its parts.
abbrev pub flight : Caller → Option (List ℕ × Task)
flight (waiting key t rec) = some (key, t)
flight (durable key t) = some (key, t)
flight _ = none

-- The task of the payload, which fits its record; its key and its ID are new to the queue.
pub record Flies (d : Durable) (key : List ℕ) (t : Task) (p : EnqueuePayload) : Type 0 where
  pub named : has_key key ≡ true
  pub own_key : t.idempotency_key ≡ key
  pub says : entry_of t ≡ new_entry p
  pub fits : Fits (enqueue p)
  pub no_key : d.keys key ≡ none
  pub no_live : d.live t.id ≡ none
  pub no_dead : d.dead_ones t.id ≡ none

abbrev pub Stands : Durable → Overlay → Caller → Type 0
Stands d o (waiting key t rec) =
    (p : EnqueuePayload) × (Flies d key t p
      × (body (enqueue p) ≡ ok rec)
      × (o.live t.id ≡ none)
      × (o.keys key ≡ none))
Stands d o (durable key t) =
    (p : EnqueuePayload) × (Flies d key t p
      × (o.live t.id ≡ some (entry_of t))
      × (o.keys key ≡ some t.id))
Stands d o _ = Unit

-- Nothing comes to the queue or to what is not visible yet under this key and this ID.
pub record Stays (d d' : Durable) (o o' : Overlay) (key : List ℕ) (id : ℕ) : Type 0 where
  pub keys : d.keys key ≡ none → d'.keys key ≡ none
  pub away :
      d.live id ≡ none → d.dead_ones id ≡ none → (d'.live id ≡ none) × (d'.dead_ones id ≡ none)
  pub same_live : o'.live id ≡ o.live id
  pub same_keys : o'.keys key ≡ o.keys key

module _ (d d' : Durable) (o o' : Overlay) where
  Flies-Stays :
      (key : List ℕ) (t : Task) (p : EnqueuePayload)
      → Stays d d' o o' key t.id
      → Flies d key t p
      → Flies d' key t p
  Flies-Stays key t p s f =
      let away = s.away f.no_live f.no_dead in
      record {
        named = f.named;
        own_key = f.own_key;
        says = f.says;
        fits = f.fits;
        no_key = s.keys f.no_key;
        no_live = away.0;
        no_dead = away.1;
      }

  pub Stands-Stays :
      (c : Caller)
      → ((key : List ℕ) (t : Task) → flight c ≡ some (key, t) → Stays d d' o o' key t.id)
      → Stands d o c
      → Stands d' o' c
  Stands-Stays idle s h = tt
  Stands-Stays (waiting key t rec) s (p, (f, e, l, k)) =
      let same = s key t refl in
      (p, (Flies-Stays key t p same f, e, same.same_live ∙ l, same.same_keys ∙ k))
  Stands-Stays (durable key t) s (p, (f, l, k)) =
      let same = s key t refl in
      (p, (Flies-Stays key t p same f, same.same_live ∙ l, same.same_keys ∙ k))
  Stands-Stays (answered key id) s h = tt
  Stands-Stays failed s h = tt

pub record Differ (key key' : List ℕ) (t t' : Task) : Type 0 where
  pub keys : key ≢ key'
  pub ids : t.id ≢ t'.id

-- The log has the record of one of these calls.
pub record LoggedId (callers : ℕ → Caller) (id : ℕ) : Type 0 where
  pub caller : ℕ
  pub key : List ℕ
  pub task : Task
  pub stands : callers caller ≡ durable key task
  pub own_id : task.id ≡ id

pub record LoggedKey (callers : ℕ → Caller) (key : List ℕ) : Type 0 where
  pub caller : ℕ
  pub task : Task
  pub stands : callers caller ≡ durable key task

-- What is not visible yet is the tasks of the calls whose record the log has; no two calls that are
-- between their parts have a key or an ID in common.
pub record Flying (d : Durable) (o : Overlay) (callers : ℕ → Caller) : Type 0 where
  pub stands : (i : ℕ) → Stands d o (callers i)
  pub from_id : (id : ℕ) → o.live id ≢ none → LoggedId callers id
  pub from_key : (key : List ℕ) → o.keys key ≢ none → LoggedKey callers key
  pub rivals :
      (i j : ℕ) (key key' : List ℕ) (t t' : Task)
      → (i == j) ≡ false
      → flight (callers i) ≡ some (key, t)
      → flight (callers j) ≡ some (key', t')
      → Differ key key' t t'

module _ (d : Durable) (o : Overlay) (callers : ℕ → Caller) (h : Flying d o callers) where
  pub Flying-Apart : Apart d o
  Flying-Apart = record {
    ids = λ id e x.
        let l : LoggedId callers id = h.from_id id (λ n. cc) in
        let (p, (f, live, key)) = rw l.stands at (h.stands l.caller) in
        (rw l.own_id at f.no_live, rw l.own_id at f.no_dead);
    keys = λ key id x.
        let l : LoggedKey callers key = h.from_key key (λ n. cc) in
        let (p, (f, live, k)) = rw l.stands at (h.stands l.caller) in f.no_key;
  }

  -- The queue changes, and no caller moves.
  pub Flying-Stays :
      (d' : Durable) → ((key : List ℕ) (id : ℕ) → Stays d d' o o key id) → Flying d' o callers
  Flying-Stays d' s = record {
    stands = λ i. Stands-Stays d d' o o (callers i) (λ key t e. s key t.id) (h.stands i);
    from_id = h.from_id;
    from_key = h.from_key;
    rivals = h.rivals;
  }

  -- One caller moves on.
  module _ (i : ℕ) (c : Caller) where
    abbrev pub moving : ℕ → Caller
    moving j = if i == j then c else callers j

    -- The log has the record of a caller that stays where it is.
    pub kept_id : (id : ℕ) (l : LoggedId callers id) → (i == l.caller) ≡ false → LoggedId moving id
    kept_id id l away = record {
      caller = l.caller;
      key = l.key;
      task = l.task;
      stands = rw away l.stands;
      own_id = l.own_id;
    }

    pub kept_key :
        (key : List ℕ) (l : LoggedKey callers key) → (i == l.caller) ≡ false → LoggedKey moving key
    kept_key key l away = record { caller = l.caller; task = l.task; stands = rw away l.stands }

    pub Flying-moves :
        (d' : Durable) (o' : Overlay)
        → Stands d' o' c
        → ((j : ℕ) (key : List ℕ) (t : Task)
            → (i == j) ≡ false
            → flight (callers j) ≡ some (key, t)
            → Stays d d' o o' key t.id)
        → ((id : ℕ) → o'.live id ≢ none → LoggedId moving id)
        → ((key : List ℕ) → o'.keys key ≢ none → LoggedKey moving key)
        → ((j : ℕ) (key key' : List ℕ) (t t' : Task)
            → (i == j) ≡ false
            → flight c ≡ some (key, t)
            → flight (callers j) ≡ some (key', t')
            → Differ key key' t t')
        → Flying d' o' moving
    Flying-moves d' o' own others from_id from_key apart = record {
      stands = λ j. elim (Bool-cases (i == j)) [
        | inl e ↦ rw e own
        | inr e ↦
            rw e (Stands-Stays d d' o o' (callers j) (λ key t f. others j key t e f) (h.stands j))
      ];
      from_id = from_id;
      from_key = from_key;
      rivals = λ j k key key' t t' ne fj fk. elim (Bool-cases (i == j)) [
        | inl e ↦
            let away : (i == k) ≡ false = grind (arith, e, ne) in
            apart k key key' t t' away (rw e at fj) (rw away at fk)
        | inr e ↦ elim (Bool-cases (i == k)) [
          | inl e' ↦
              let r = apart j key' key t' t e (rw e' at fk) (rw e at fj) in
              record { keys = λ x. r.keys (sym x); ids = λ x. r.ids (sym x) }
          | inr e' ↦ h.rivals j k key key' t t' ne (rw e at fj) (rw e' at fk)
        ]
      ];
    }
