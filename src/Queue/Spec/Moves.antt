-- ===== src/Queue/Spec/Moves.antt =====
-- The changes that the methods and the replay share (internal/queue/queue.go), on any two states of
-- a queue: what they do to the view, and that the maps stay well-formed.
use gojobs.Prelude.{ℕ, ◌+◌, ◌≡◌, ap, ◌∙◌, some, none, List, ◌==◌, if◌then◌else◌, arith}
use gojobs.Prelude.Map.{nat_eq, bytes_key, lookup, put, remove, lookup-put, lookup-remove}
use gojobs.Queue.State.{Queue}
use gojobs.Queue.Spec.{Durable, Entry, view, entry_of, change, change_key, Durable_path, IsWell}

-- The queue is well-formed and holds `d`.
pub record Holds (q : Queue) (d : Durable) : Type 0 where
  pub holds : view q ≡ d
  pub well : IsWell q

module _ (q q' : Queue) (well : IsWell q) (same_keys : q'.index_of_idem_keys ≡ q.index_of_idem_keys)
    (same_next : q'.next ≡ q.next) where
  -- The maps are as they were.
  pub unchanged :
      ((p : ℕ) → entry_of (q'.cell p) ≡ entry_of (q.cell p))
      → q'.index ≡ q.index
      → q'.dlq ≡ q.dlq
      → Holds q' (view q)
  unfolding view
  unchanged cells index dlq = record {
    holds =
        Durable_path (λ j. grind (arith, index, cells)) (λ j. grind (arith, dlq, cells))
          (λ k. ap (lookup k) same_keys);
    well = record {
      index_id = λ j p e. grind (arith, index, well.index_id, cells p);
      dlq_id = λ j p e. grind (arith, dlq, well.dlq_id, cells p);
      index_next = λ j p e. grind (arith, index, well.index_next);
      dlq_next = λ j p e. grind (arith, dlq, well.dlq_next);
      apart = λ j p e. grind (arith, index, dlq, well.apart);
    };
  }

  -- The task of `id` is no longer live.
  pub dropped :
      (id : ℕ)
      → ((p : ℕ) → entry_of (q'.cell p) ≡ entry_of (q.cell p))
      → q'.index ≡ remove id q.index
      → q'.dlq ≡ q.dlq
      → Holds q' (record (view q) { live = change (view q).live id none })
  unfolding view
  dropped id cells index dlq = record {
    holds =
        Durable_path (λ j. grind (arith, index, lookup-remove id j q.index, cells))
          (λ j. grind (arith, dlq, cells)) (λ k. ap (lookup k) same_keys);
    well = record {
      index_id = λ j p e. grind (arith, index, lookup-remove id j q.index, well.index_id, cells p);
      dlq_id = λ j p e. grind (arith, dlq, well.dlq_id, cells p);
      index_next = λ j p e. grind (arith, index, lookup-remove id j q.index, well.index_next);
      dlq_next = λ j p e. grind (arith, dlq, well.dlq_next);
      apart = λ j p e. grind (arith, index, dlq, lookup-remove id j q.index, well.apart);
    };
  }

  -- The dead task `id` is gone.
  pub purged :
      (id : ℕ)
      → ((p : ℕ) → entry_of (q'.cell p) ≡ entry_of (q.cell p))
      → q'.index ≡ q.index
      → q'.dlq ≡ remove id q.dlq
      → Holds q' (record (view q) { dead_ones = change (view q).dead_ones id none })
  unfolding view
  purged id cells index dlq = record {
    holds =
        Durable_path (λ j. grind (arith, index, cells))
          (λ j. grind (arith, dlq, lookup-remove id j q.dlq, cells)) (λ k. ap (lookup k) same_keys);
    well = record {
      index_id = λ j p e. grind (arith, index, well.index_id, cells p);
      dlq_id = λ j p e. grind (arith, dlq, lookup-remove id j q.dlq, well.dlq_id, cells p);
      index_next = λ j p e. grind (arith, index, well.index_next);
      dlq_next = λ j p e. grind (arith, dlq, lookup-remove id j q.dlq, well.dlq_next);
      apart = λ j p e. grind (arith, index, dlq, lookup-remove id j q.dlq, well.apart);
    };
  }

  module _ (id c : ℕ) (e : Entry) (same_id : e.id ≡ id)
      (cells : (p : ℕ) → entry_of (q'.cell p) ≡ (if c == p then e else entry_of (q.cell p))) where
    -- The live task `id`, at `c`, is now `e`.
    pub rewritten :
        lookup id q.index ≡ some c
        → q'.index ≡ q.index
        → q'.dlq ≡ q.dlq
        → Holds q' (record (view q) { live = change (view q).live id (some e) })
    unfolding view
    rewritten found index dlq = record {
      holds =
          Durable_path (λ j. grind (arith, index, cells, well.index_id))
            (λ j. grind (arith, dlq, cells, well.index_id, well.dlq_id, well.apart))
            (λ k. ap (lookup k) same_keys);
      well = record {
        index_id = λ j p h. grind (arith, index, well.index_id, cells p);
        dlq_id = λ j p h. grind (arith, dlq, well.dlq_id, well.index_id, cells p);
        index_next = λ j p h. grind (arith, index, well.index_next);
        dlq_next = λ j p h. grind (arith, dlq, well.dlq_next);
        apart = λ j p h. grind (arith, index, dlq, well.apart);
      };
    }

    -- The live task `id`, at `c`, is dead, and is now `e`.
    pub buried :
        lookup id q.index ≡ some c
        → q'.index ≡ remove id q.index
        → q'.dlq ≡ put id c q.dlq
        → Holds q' (record (view q) {
          live = change (view q).live id none;
          dead_ones = change (view q).dead_ones id (some e);
        })
    unfolding view
    buried found index dlq = record {
      holds =
          Durable_path (λ j. grind (arith, index, cells, well.index_id, lookup-remove id j q.index))
            (λ j.
              grind (
                arith,
                dlq,
                cells,
                well.index_id,
                well.dlq_id,
                well.apart,
                lookup-put id j c q.dlq,
              ))
            (λ k. ap (lookup k) same_keys);
      well = record {
        index_id =
            λ j p h. grind (arith, index, well.index_id, cells p, lookup-remove id j q.index);
        dlq_id = λ j p h.
            grind (arith, dlq, well.dlq_id, well.index_id, cells p, lookup-put id j c q.dlq);
        index_next = λ j p h. grind (arith, index, well.index_next, lookup-remove id j q.index);
        dlq_next =
            λ j p h. grind (arith, dlq, well.dlq_next, well.index_next, lookup-put id j c q.dlq);
        apart = λ j p h.
            grind
              (arith, index, dlq, well.apart, lookup-remove id j q.index, lookup-put id j c q.dlq);
      };
    }

    -- The dead task `id`, at `c`, is live again, and is now `e`.
    pub revived :
        lookup id q.dlq ≡ some c
        → q'.index ≡ put id c q.index
        → q'.dlq ≡ remove id q.dlq
        → Holds q' (record (view q) {
          dead_ones = change (view q).dead_ones id none;
          live = change (view q).live id (some e);
        })
    unfolding view
    revived found index dlq = record {
      holds =
          Durable_path
            (λ j. grind (
              arith,
              index,
              cells,
              well.index_id,
              well.dlq_id,
              well.apart,
              lookup-put id j c q.index,
            ))
            (λ j. grind (arith, dlq, cells, well.dlq_id, lookup-remove id j q.dlq))
            (λ k. ap (lookup k) same_keys);
      well = record {
        index_id = λ j p h.
            grind (arith, index, well.index_id, well.dlq_id, cells p, lookup-put id j c q.index);
        dlq_id = λ j p h. grind (arith, dlq, well.dlq_id, cells p, lookup-remove id j q.dlq);
        index_next = λ j p h.
            grind (arith, index, well.index_next, well.dlq_next, lookup-put id j c q.index);
        dlq_next = λ j p h. grind (arith, dlq, well.dlq_next, lookup-remove id j q.dlq);
        apart = λ j p h.
            grind
              (arith, index, dlq, well.apart, lookup-remove id j q.dlq, lookup-put id j c q.index);
      };
    }

-- A new task, in the first free cell.
module _ (q q' : Queue) (well : IsWell q) (key : List ℕ) (e : Entry)
    (same_keys : q'.index_of_idem_keys ≡ put key e.id q.index_of_idem_keys)
    (next_cell : q'.next ≡ q.next + 1)
    (cells : (p : ℕ) → entry_of (q'.cell p) ≡ (if q.next == p then e else entry_of (q.cell p)))
    (fresh : (view q).dead_ones e.id ≡ none) (index : q'.index ≡ put e.id q.next q.index)
    (dlq : q'.dlq ≡ q.dlq) where
  pub added : Holds q' (record (view q) {
    live = change (view q).live e.id (some e);
    keys = change_key (view q).keys key e.id;
  })
  unfolding view
  added = record {
    holds =
        Durable_path
          (λ j. grind (arith, index, cells, well.index_next, lookup-put e.id j q.next q.index))
          (λ j. grind (arith, dlq, cells, well.dlq_next))
          (λ k. ap (lookup k) same_keys ∙ lookup-put key k e.id q.index_of_idem_keys);
    well = record {
      index_id = λ j p h.
          grind (
            arith,
            index,
            well.index_id,
            well.index_next,
            cells p,
            lookup-put e.id j q.next q.index,
          );
      dlq_id = λ j p h. grind (arith, dlq, well.dlq_id, well.dlq_next, cells p);
      index_next = λ j p h.
          grind (arith, index, next_cell, well.index_next, lookup-put e.id j q.next q.index);
      dlq_next = λ j p h. grind (arith, dlq, next_cell, well.dlq_next);
      apart =
          λ j p h. grind (arith, index, dlq, fresh, well.apart, lookup-put e.id j q.next q.index);
    };
  }
