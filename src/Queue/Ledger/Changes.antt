-- ===== src/Queue/Ledger/Changes.antt =====
-- The calls that add a task or complete one (internal/queue/queue.go: Enqueue, Ack).
use gojobs.Prelude.{
  ℕ, ◌+◌, ◌<◌, ◌≡◌, ◌≢◌, refl, true, false, some, none, List, arith, if◌then◌else◌, ◌==◌,
  bytes_eq_iff,
}
use gojobs.Prelude.Run.{ok}
use gojobs.Prelude.Map.{nat_eq, bytes_key, lookup, put, lookup-put, lookup-remove}
use gojobs.Prelude.Map.Size.{put-IsMap, remove-IsMap, length-put, length-remove}
use gojobs.Task.{Task, zero_task, state_ready}
use gojobs.ReadyHeap.{heap_push}
use gojobs.ReadyHeap.Items.{heap_push-SameItems}
use gojobs.Queue.State.{Queue, go_on, update}
use gojobs.Queue.Methods.{enqueue, ack, existing, admission, make_visible}
use gojobs.Queue.Spec.{IsWell}
use gojobs.Queue.Ledger.{held, holds_id, Known, IsBooked, Known-same}

-- One task came in, with a new key.
pub record AddsTask (key : List ℕ) (id : ℕ) (q q' : Queue) : Type 0 where
  pub booked : IsBooked q'
  pub known : (p : ℕ) → Known q p → Known q' p
  pub same_ids : (p : ℕ) → p < q.next → (q'.cell p).id ≡ (q.cell p).id
  pub same_keys : (p : ℕ) → p < q.next → (q'.cell p).idempotency_key ≡ (q.cell p).idempotency_key
  pub index_of_keys : q'.index_of_idem_keys ≡ put key id q.index_of_idem_keys
  pub tasks : (j : ℕ) → holds_id q' j ≡ (if id == j then true else holds_id q j)
  pub count : held q' ≡ held q + 1

-- The task of this ID is gone.
pub record DropsTask (id : ℕ) (q q' : Queue) : Type 0 where
  pub booked : IsBooked q'
  pub known : (p : ℕ) → Known q p → Known q' p
  pub ids : (p : ℕ) → (q'.cell p).id ≡ (q.cell p).id
  pub keys : (p : ℕ) → (q'.cell p).idempotency_key ≡ (q.cell p).idempotency_key
  pub index_of_keys : q'.index_of_idem_keys ≡ q.index_of_idem_keys
  pub tasks : (j : ℕ) → holds_id q' j ≡ (if id == j then false else holds_id q j)
  pub count : held q' + 1 ≡ held q

-- A pointer that is not in use takes a new task, whose key leads nowhere and whose ID no key leads to.
module _ (q : Queue) (h : IsBooked q) (payload key : List ℕ) (id now : ℕ)
    (new : existing key q ≡ none) (keyed : lookup key q.index_of_idem_keys ≡ none)
    (unused : (k : List ℕ) → lookup k q.index_of_idem_keys ≢ some id)
    (fresh : holds_id q id ≡ false) where
  abbrev arrival : Task
  arrival = record zero_task {
    id = id;
    idempotency_key = key;
    payload = payload;
    status = state_ready;
    enqueued_at = now;
  }

  abbrev cells : ℕ → Task
  cells = update q.cell q.next arrival

  abbrev arrived : List (List ℕ) → Queue
  arrived log = record q {
    cell = cells;
    next = q.next + 1;
    ready = heap_push cells q.ready q.next;
    index = put id q.next q.index;
    index_of_idem_keys = put key id q.index_of_idem_keys;
    log = log;
  }

  enqueue_shape : (log : List (List ℕ)) × (enqueue true payload key id now q ≡ (ok id, arrived log))
  unfolding enqueue
  enqueue_shape = (
    (enqueue true payload key id now q).1.log,
    rw (new, admission, go_on, new, make_visible) refl,
  )

  known : (log : List (List ℕ)) (p : ℕ) → Known q p → Known (arrived log) p
  known log p k = record {
    below = omega (arith, k.below);
    keyed = grind (
      arith,
      k.below,
      k.keyed,
      lookup-put key (q.cell p).idempotency_key id q.index_of_idem_keys,
      bytes_eq_iff key (q.cell p).idempotency_key,
    );
  }

  arrived-Known : (log : List (List ℕ)) → Known (arrived log) q.next
  arrived-Known log = record {
    below = omega arith;
    keyed = grind (arith, lookup-put key key id q.index_of_idem_keys, bytes_eq_iff key key);
  }

  arrived-IsBooked : (log : List (List ℕ)) → IsBooked (arrived log)
  arrived-IsBooked log = record {
    index_map = put-IsMap id q.next q.index h.index_map;
    dlq_map = h.dlq_map;
    keys_map = put-IsMap key id q.index_of_idem_keys h.keys_map;
    one_to_one = λ k j i e f. grind (
      arith,
      lookup-put key k id q.index_of_idem_keys,
      lookup-put key j id q.index_of_idem_keys,
      bytes_eq_iff key k,
      bytes_eq_iff key j,
      h.one_to_one k j i,
      unused k,
      unused j,
    );
    ready_known = λ p e. grind (
      arith,
      heap_push-SameItems cells q.ready q.next p,
      h.ready_known p,
      known log p,
      arrived-Known log,
    );
    index_known = λ i p e.
        grind (
          arith,
          lookup-put id i q.next q.index,
          h.index_known i p,
          known log p,
          arrived-Known log,
        );
    dlq_known = λ i p e. known log p (h.dlq_known i p e);
  }

  arrived-AddsTask : (log : List (List ℕ)) → AddsTask key id q (arrived log)
  arrived-AddsTask log = record {
    booked = arrived-IsBooked log;
    known = known log;
    same_ids = λ p e. grind (arith, e);
    same_keys = λ p e. grind (arith, e);
    index_of_keys = refl;
    tasks = λ j. grind (arith, lookup-put id j q.next q.index);
    count = grind (arith, length-put id q.next q.index h.index_map, fresh);
  }

  pub enqueue-AddsTask : AddsTask key id q (enqueue true payload key id now q).1
  enqueue-AddsTask = let (log, e) = enqueue_shape in rw e (arrived-AddsTask log)

module _ (q : Queue) (h : IsBooked q) (well : IsWell q) (id p : ℕ)
    (there : lookup id q.index ≡ some p) where
  pub ack-DropsTask : DropsTask id q (ack true id q).1
  unfolding ack
  ack-DropsTask =
      rw (there, go_on)
        (record {
          booked = record {
            index_map = remove-IsMap id q.index h.index_map;
            dlq_map = h.dlq_map;
            keys_map = h.keys_map;
            one_to_one = h.one_to_one;
            ready_known = λ j e.
                Known-same {q = q} j refl (ground arith) (ground arith) refl (h.ready_known j e);
            index_known = λ i j e.
                Known-same {q = q} j refl (ground arith) (ground arith) refl
                  (grind (arith, lookup-remove id i q.index, h.index_known i j));
            dlq_known = λ i j e.
                Known-same {q = q} j refl (ground arith) (ground arith) refl (h.dlq_known i j e);
          };
          known = λ j k. Known-same {q = q} j refl (ground arith) (ground arith) refl k;
          ids = λ j. ground arith;
          keys = λ j. ground arith;
          index_of_keys = refl;
          tasks = λ j. grind (arith, lookup-remove id j q.index, well.apart id p there);
          count = grind (arith, length-remove id q.index h.index_map, there);
        })
