-- ===== src/Queue/Ledger.antt =====
-- How many tasks a queue holds, and which keys they have (internal/queue/queue.go).
pub mod Sames
pub mod Changes
use gojobs.Prelude.{
  ℕ, ◌+◌, ◌<◌, ◌≡◌, refl, Bool, true, false, Option, some, none, List, [], length, ◌||◌,
}
use gojobs.Prelude.Array.{times}
use gojobs.Prelude.Map.{nat_eq, bytes_key, lookup}
use gojobs.Prelude.Map.Size.{has, IsMap}
use gojobs.Queue.State.{Queue}

-- The tasks that are live or dead.
abbrev pub held : Queue → ℕ
held q = length q.index + length q.dlq

abbrev pub holds_id : Queue → ℕ → Bool
holds_id q id = has id q.index || has id q.dlq

-- The task at `p` was enqueued with a key, and this key leads to it.
pub record Known (q : Queue) (p : ℕ) : Type 0 where
  pub below : p < q.next
  pub keyed : lookup (q.cell p).idempotency_key q.index_of_idem_keys ≡ some (q.cell p).id

-- Each key leads to an ID of its own, and every task that the queue can reach is known.
pub record IsBooked (q : Queue) : Type 0 where
  pub index_map : IsMap q.index
  pub dlq_map : IsMap q.dlq
  pub keys_map : IsMap q.index_of_idem_keys
  pub one_to_one :
      (k j : List ℕ) (id : ℕ)
      → lookup k q.index_of_idem_keys ≡ some id
      → lookup j q.index_of_idem_keys ≡ some id
      → k ≡ j
  pub ready_known : (p : ℕ) → 0 < times p q.ready → Known q p
  pub index_known : (id p : ℕ) → lookup id q.index ≡ some p → Known q p
  pub dlq_known : (id p : ℕ) → lookup id q.dlq ≡ some p → Known q p

-- The tasks and keys are the same, wherever they are.
pub record SameBooks (q q' : Queue) : Type 0 where
  pub booked : IsBooked q'
  pub next : q'.next ≡ q.next
  pub ids : (p : ℕ) → (q'.cell p).id ≡ (q.cell p).id
  pub keys : (p : ℕ) → (q'.cell p).idempotency_key ≡ (q.cell p).idempotency_key
  pub index_of_keys : q'.index_of_idem_keys ≡ q.index_of_idem_keys
  pub tasks : (id : ℕ) → holds_id q' id ≡ holds_id q id
  pub count : held q' ≡ held q

pub IsBooked-self : (q : Queue) → IsBooked q → SameBooks q q
IsBooked-self q h = record {
  booked = h;
  next = refl;
  ids = λ p. refl;
  keys = λ p. refl;
  index_of_keys = refl;
  tasks = λ id. refl;
  count = refl;
}

pub Known-same :
    {q q' : Queue} (p : ℕ)
    → q'.next ≡ q.next
    → (q'.cell p).id ≡ (q.cell p).id
    → (q'.cell p).idempotency_key ≡ (q.cell p).idempotency_key
    → q'.index_of_idem_keys ≡ q.index_of_idem_keys
    → Known q p
    → Known q' p
Known-same p n i k m h = record { below = rw n h.below; keyed = rw (i, k, m) h.keyed }
