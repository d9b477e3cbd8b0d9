-- ===== src/Queue/Ledger/Sames.antt =====
-- The calls that neither add a task nor complete one (internal/queue/queue.go: Dequeue, Retry,
-- Sweeper, RequeueDead).
use gojobs.Prelude.{
  ℕ, ◌+◌, ◌<◌, ◌≡◌, refl, ap, Bool, true, false, Option, some, none, List, [], ◌∷◌, length, ◌||◌,
  arith, Bool-cases, inl, inr, ltb,
}
use gojobs.Prelude.Array.{times}
use gojobs.Task.{Task, state_ready}
use gojobs.Prelude.Map.{Map, nat_eq, bytes_key, lookup, put, remove, lookup-put, lookup-remove}
use gojobs.Prelude.Map.Size.{has, IsMap, put-IsMap, remove-IsMap, length-put, length-remove}
use gojobs.Clock.{after, before, zero_time}
use gojobs.Queue.Backoff.{generate_backoff}
use gojobs.ReadyHeap.{heap_push}
use gojobs.ReadyHeap.Items.{heap_pop-SameItems, heap_push-SameItems}
use gojobs.Queue.State.{Queue, go_on, update}
use gojobs.Queue.Methods.{Env, dequeue, dequeue_from, lease, retry, retry_locked, sweep_entry}
use gojobs.Queue.DeadLetter.{requeue_dead}
use gojobs.Queue.Spec.{IsWell}
use gojobs.Queue.Ledger.{held, holds_id, Known, IsBooked, SameBooks, IsBooked-self, Known-same}

-- What a call must keep so that the tasks and keys are the same.
module _ (q q' : Queue) (h : IsBooked q) (n : q'.next ≡ q.next)
    (i : (p : ℕ) → (q'.cell p).id ≡ (q.cell p).id)
    (k : (p : ℕ) → (q'.cell p).idempotency_key ≡ (q.cell p).idempotency_key)
    (m : q'.index_of_idem_keys ≡ q.index_of_idem_keys) where
  known : (p : ℕ) → Known q p → Known q' p
  known p = Known-same p n (i p) (k p) m

  pub SameBooks-maps :
      IsMap q'.index
      → IsMap q'.dlq
      → ((p : ℕ) → 0 < times p q'.ready → Known q p)
      → ((id p : ℕ) → lookup id q'.index ≡ some p → Known q p)
      → ((id p : ℕ) → lookup id q'.dlq ≡ some p → Known q p)
      → ((id : ℕ) → holds_id q' id ≡ holds_id q id)
      → held q' ≡ held q
      → SameBooks q q'
  SameBooks-maps im dm r ik dk t c = record {
    booked = record {
      index_map = im;
      dlq_map = dm;
      keys_map = rw m h.keys_map;
      one_to_one = rw m h.one_to_one;
      ready_known = λ p e. known p (r p e);
      index_known = λ id p e. known p (ik id p e);
      dlq_known = λ id p e. known p (dk id p e);
    };
    next = n;
    ids = i;
    keys = k;
    index_of_keys = m;
    tasks = t;
    count = c;
  }

-- A task that moves from one map to the other.
module _ (a b : Map ℕ ℕ) (id p : ℕ) (there : lookup id a ≡ some p) where
  has-move : (j : ℕ) → has j (remove id a) || has j (put id p b) ≡ has j a || has j b
  has-move j = grind (arith, lookup-remove id j a, lookup-put id j p b)

  has-move_back : (j : ℕ) → has j (put id p b) || has j (remove id a) ≡ has j b || has j a
  has-move_back j = grind (arith, lookup-remove id j a, lookup-put id j p b)

  length-move :
      IsMap a
      → IsMap b
      → lookup id b ≡ none
      → length (remove id a) + length (put id p b) ≡ length a + length b
  length-move ha hb e = grind (arith, length-remove id a ha, length-put id p b hb)

module _ (q : Queue) (h : IsBooked q) where
  lease-SameBooks : (now : ℕ) → 0 < length q.ready → SameBooks q (lease now q).1
  unfolding lease
  lease-SameBooks now full =
      SameBooks-maps q (lease now q).1 h refl (λ p. ground arith) (λ p. ground arith) refl
        h.index_map h.dlq_map
        (λ p e. h.ready_known p (omega (arith, heap_pop-SameItems q.cell q.ready full p)))
        h.index_known h.dlq_known (λ id. refl) refl

  dequeue_from-SameBooks :
      (now : ℕ) (ready : List ℕ) → q.ready ≡ ready → SameBooks q (dequeue_from ready now q).1
  unfolding dequeue_from
  dequeue_from-SameBooks now [] e = IsBooked-self q h
  dequeue_from-SameBooks now (root ∷ rest) e =
      elim (Bool-cases (after (q.cell root).available_at now)) [
        | inl late ↦ rw late (IsBooked-self q h)
        | inr due ↦ rw due (lease-SameBooks now (omega (arith, ap length e)))
      ]

  pub dequeue-SameBooks : (now : ℕ) → SameBooks q (dequeue now q).1
  unfolding dequeue
  dequeue-SameBooks now = dequeue_from-SameBooks now q.ready refl

module _ (q : Queue) (h : IsBooked q) where
  pub pushed :
      (cell : ℕ → Task) (p j : ℕ) → Known q p → 0 < times j (heap_push cell q.ready p) → Known q j
  pushed cell p j k c = grind (arith, heap_push-SameItems cell q.ready p j, h.ready_known j)

module _ (q : Queue) (h : IsBooked q) (well : IsWell q) (env : Env) (id : ℕ) where
  found-SameBooks : (p : ℕ) → lookup id q.index ≡ some p → SameBooks q (retry_locked env id q).1
  unfolding retry_locked
  found-SameBooks p e = elim (Bool-cases (ltb q.max_retries ((q.cell p).retries + 1))) [
    | inl dies ↦ elim (Bool-cases env.syncs) [
      | inl s ↦
          rw (e, go_on, dies, s)
            (SameBooks-maps q _ h refl (λ j. ground arith) (λ j. ground arith) refl
              (remove-IsMap id q.index h.index_map) (put-IsMap id p q.dlq h.dlq_map) h.ready_known
              (λ j c x. grind (arith, lookup-remove id j q.index, h.index_known j c))
              (λ j c x. grind (arith, lookup-put id j p q.dlq, h.dlq_known j c, h.index_known id p))
              (has-move q.index q.dlq id p e)
              (length-move q.index q.dlq id p e h.index_map h.dlq_map (well.apart id p e)))
      | inr s ↦ rw (e, go_on, dies, s) (IsBooked-self q h)
    ]
    | inr lives ↦ elim (Bool-cases env.syncs) [
      | inl s ↦
          rw (e, go_on, lives, s)
            (SameBooks-maps q _ h refl (λ j. ground arith) (λ j. ground arith) refl h.index_map
              h.dlq_map
              (λ j c.
                pushed q h
                  (update q.cell p (record (q.cell p) {
                    status = state_ready;
                    available_at = env.now + generate_backoff env.scale (q.cell p).retries;
                  }))
                  p j (h.index_known id p e) c)
              h.index_known h.dlq_known (λ j. refl) refl)
      | inr s ↦ rw (e, go_on, lives, s) (IsBooked-self q h)
    ]
  ]

  lookup-SameBooks : (o : Option ℕ) → lookup id q.index ≡ o → SameBooks q (retry_locked env id q).1
  unfolding retry_locked
  lookup-SameBooks none e = rw (e, go_on) (IsBooked-self q h)
  lookup-SameBooks (some p) e = found-SameBooks p e

  pub retry-SameBooks : SameBooks q (retry env id q).1
  unfolding retry
  retry-SameBooks = lookup-SameBooks _ refl

  pub sweep_entry-SameBooks : (o : Option ℕ) → SameBooks q (sweep_entry env id o q).1
  unfolding sweep_entry
  sweep_entry-SameBooks none = IsBooked-self q h
  sweep_entry-SameBooks (some p) = elim (Bool-cases (before (q.cell p).lease_until env.now)) [
    | inl late ↦ rw late (lookup-SameBooks _ refl)
    | inr early ↦ rw early (IsBooked-self q h)
  ]

module _ (q : Queue) (h : IsBooked q) (well : IsWell q) (id : ℕ) where
  requeue_found :
      (syncs : Bool) (o : Option ℕ) → lookup id q.dlq ≡ o → SameBooks q (requeue_dead syncs id q).1
  unfolding requeue_dead
  requeue_found syncs none e = rw (e, go_on) (IsBooked-self q h)
  requeue_found false (some p) e = rw (e, go_on) (IsBooked-self q h)
  requeue_found true (some p) e =
      rw (e, go_on)
        (SameBooks-maps q _ h refl (λ j. ground arith) (λ j. ground arith) refl
          (put-IsMap id p q.index h.index_map) (remove-IsMap id q.dlq h.dlq_map)
          (λ j c.
            pushed q h
              (update q.cell p (record (q.cell p) {
                status = state_ready;
                retries = 0;
                available_at = zero_time;
                failed_at = zero_time;
              }))
              p j (h.dlq_known id p e) c)
          (λ j c x. grind (arith, lookup-put id j p q.index, h.index_known j c, h.dlq_known id p))
          (λ j c x. grind (arith, lookup-remove id j q.dlq, h.dlq_known j c))
          (has-move_back q.dlq q.index id p e)
          (omega (
            arith,
            length-move q.dlq q.index id p e h.dlq_map h.index_map (grind (arith, well.apart id)),
          )))

  pub requeue_dead-SameBooks : (syncs : Bool) → SameBooks q (requeue_dead syncs id q).1
  requeue_dead-SameBooks syncs = requeue_found syncs _ refl
