-- ===== src/Queue/Overlap/Moves.antt =====
-- One caller of Enqueue moves on: it starts, the log takes its record, its task is shown, or it fails
-- (internal/queue/queue.go: Enqueue).
use gojobs.Prelude.{
  ℕ, ◌≡◌, ◌≢◌, refl, sym, ◌∙◌, ap, false, some, List, ◌==◌, arith, if◌then◌else◌, Bool-cases, inl,
  inr, bytes_eq, bytes_eq_iff,
}
use gojobs.Prelude.Map.{nat_eq, bytes_key}
use gojobs.Task.{Task}
use gojobs.Record.Payload.{EnqueuePayload}
use gojobs.Queue.Spec.{Durable}
use gojobs.Queue.Overlap.{Caller, durable, answered}
use gojobs.Queue.Overlap.Overlay.{Overlay}
use gojobs.Queue.Overlap.Flying.{
  flight, Flies, Stands, Stays, Differ, LoggedId, LoggedKey, Flying, Flying-moves, kept_id,
  kept_key,
}
use gojobs.Queue.Overlap.Joined.{joined, pending, shown}

unmoved : (d : Durable) (o : Overlay) (key : List ℕ) (id : ℕ) → Stays d d o o key id
unmoved d o key id = record {
  keys = λ e. e;
  away = λ l x. (l, x);
  same_live = refl;
  same_keys = refl;
}

module _ (d : Durable) (o : Overlay) (callers : ℕ → Caller) (h : Flying d o callers) (i : ℕ)
    (c : Caller) where
  -- A caller whose record the log has not is none of those whose record it has.
  other_id :
      (id : ℕ) (l : LoggedId callers id)
      → callers i ≢ durable l.key l.task
      → (i == l.caller) ≡ false
  other_id id l away = elim (Bool-cases (i == l.caller)) [
    | inl e ↦
        let same : i ≡ l.caller = grind (arith, e) in absurd (away (ap callers same ∙ l.stands))
    | inr e ↦ e
  ]

  other_key :
      (key : List ℕ) (l : LoggedKey callers key)
      → callers i ≢ durable key l.task
      → (i == l.caller) ≡ false
  other_key key l away = elim (Bool-cases (i == l.caller)) [
    | inl e ↦
        let same : i ≡ l.caller = grind (arith, e) in absurd (away (ap callers same ∙ l.stands))
    | inr e ↦ e
  ]

  -- A caller returns that the log has no record of, or goes as far as to wait for the log.
  pub Flying-apart :
      ((key : List ℕ) (t : Task) → callers i ≢ durable key t)
      → Stands d o c
      → ((j : ℕ) (key key' : List ℕ) (t t' : Task)
          → (i == j) ≡ false
          → flight c ≡ some (key, t)
          → flight (callers j) ≡ some (key', t')
          → Differ key key' t t')
      → Flying d o (λ j. if i == j then c else callers j)
  Flying-apart away own apart =
      Flying-moves d o callers h i c d o own (λ j key t ne f. unmoved d o key t.id)
        (λ id x.
          let l = h.from_id id x in
          kept_id d o callers h i c id l (other_id id l (away l.key l.task)))
        (λ key x.
          let l = h.from_key key x in
          kept_key d o callers h i c key l (other_key key l (away key l.task)))
        apart

module _ (d : Durable) (o : Overlay) (callers : ℕ → Caller) (h : Flying d o callers) (i : ℕ)
    (key : List ℕ) (t : Task) (p : EnqueuePayload) (f : Flies d key t p)
    (flies : flight (callers i) ≡ some (key, t)) where
  abbrev stored : ℕ → Caller
  stored j = if i == j then durable key t else callers j

  stored_self : stored i ≡ durable key t
  stored_self = ground arith

  -- The log has taken the record.
  pub Flying-pending :
      ((key : List ℕ) (t : Task) → callers i ≢ durable key t) → Flying d (pending o key t) stored
  Flying-pending away =
      Flying-moves d o callers h i (durable key t) d (pending o key t)
        (p, (f, grind arith, grind (arith, bytes_eq_iff key key)))
        (λ j key' t' ne fj.
          let r = h.rivals i j key key' t t' ne flies fj in
          record {
            keys = λ e. e;
            away = λ l x. (l, x);
            same_live = grind (arith, r.ids);
            same_keys = grind (arith, r.keys, bytes_eq_iff key key');
          })
        (λ id x. elim (Bool-cases (t.id == id)) [
          | inl e ↦ record {
            caller = i;
            key = key;
            task = t;
            stands = stored_self;
            own_id = grind (arith, e);
          }
          | inr e ↦
              let l = h.from_id id (rw e at x) in
              kept_id d o callers h i (durable key t) id l
                (other_id d o callers h i (durable key t) id l (away l.key l.task))
        ])
        (λ k x. elim (Bool-cases (bytes_eq key k)) [
          | inl e ↦
              let same : key ≡ k = grind (arith, bytes_eq_iff key k, e) in
              record { caller = i; task = t; stands = stored_self ∙ ap (λ x. durable x t) same }
          | inr e ↦
              let l = h.from_key k (rw e at x) in
              kept_key d o callers h i (durable key t) k l
                (other_key d o callers h i (durable key t) k l (away k l.task))
        ])
        (λ j k k' t1 t' ne e fj. h.rivals i j k k' t1 t' ne (flies ∙ e) fj)

  -- The queue has the task, and its caller returns.
  pub Flying-shown :
      callers i ≡ durable key t
      → Flying
          (joined d key t)
          (shown o key t)
          (λ j. if i == j then answered key t.id else callers j)
  Flying-shown stands =
      Flying-moves d o callers h i (answered key t.id) (joined d key t) (shown o key t) tt
        (λ j key' t' ne fj.
          let r = h.rivals i j key key' t t' ne flies fj in
          record {
            keys = λ e. grind (arith, e, r.keys, bytes_eq_iff key key');
            away = λ l x. (grind (arith, l, r.ids), x);
            same_live = grind (arith, r.ids);
            same_keys = grind (arith, r.keys, bytes_eq_iff key key');
          })
        (λ id x. elim (Bool-cases (t.id == id)) [
          | inl e ↦ absurd ((rw e at x) refl)
          | inr e ↦
              let l = h.from_id id (rw e at x) in
              kept_id d o callers h i (answered key t.id) id l (
                other_id d o callers h i (answered key t.id) id l (λ same.
                  let one : durable key t ≡ durable l.key l.task = sym stands ∙ same in
                  grind (arith, one, l.own_id, e)))
        ])
        (λ k x. elim (Bool-cases (bytes_eq key k)) [
          | inl e ↦ absurd ((rw e at x) refl)
          | inr e ↦
              let l = h.from_key k (rw e at x) in
              kept_key d o callers h i (answered key t.id) k l (
                other_key d o callers h i (answered key t.id) k l (λ same.
                  let one : durable key t ≡ durable k l.task = sym stands ∙ same in
                  grind (arith, one, bytes_eq_iff key k, e)))
        ])
        (λ j k k' t1 t' ne e fj. record { keys = λ x. cc; ids = λ x. cc })
