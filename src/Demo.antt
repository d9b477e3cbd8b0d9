-- ===== src/Demo.antt =====
-- cmd/taskq/main.go: the demo that enqueues a few tasks, then takes and acknowledges until the queue is
-- empty. The queue is open already; what it prints is left out, and log.Fatalf is the error.
pub mod Ends
use gojobs.Prelude.{ℕ, zero, suc, ◌+◌, Bool, Option, some, none, List, [], ◌∷◌, ◌++◌, length}
use gojobs.Prelude.Run.{Run, ok, out_of_fuel}
use gojobs.Queue.State.{Queue, Exec, go_on, pure, gets}
use gojobs.Queue.Methods.{enqueue, dequeue, ack}
use gojobs.Queue.DeadLetter.{dlq_len}

-- "payload for "
abbrev payload_prefix : List ℕ
payload_prefix = 112 ∷ 97 ∷ 121 ∷ 108 ∷ 111 ∷ 97 ∷ 100 ∷ 32 ∷ 102 ∷ 111 ∷ 114 ∷ 32 ∷ []

-- "email-1", "email-2", "email-3"
abbrev email_keys : List (List ℕ)
email_keys = email 49 ∷ email 50 ∷ email 51 ∷ []
  where
    email : ℕ → List ℕ
    email digit = 101 ∷ 109 ∷ 97 ∷ 105 ∷ 108 ∷ 45 ∷ digit ∷ []

unfoldable pub enqueue_keys : List (List ℕ) → (ℕ → Bool) → (ℕ → ℕ) → (ℕ → ℕ) → Exec (Unit {0})
unfolding enqueue
enqueue_keys [] syncs uuids clock q = pure tt q
enqueue_keys (key ∷ keys) syncs uuids clock q =
    let (r, q') = enqueue (syncs 0) (payload_prefix ++ key) key (uuids 0) (clock 0) q in
    go_on r (λ id. enqueue_keys keys (λ i. syncs (suc i)) (λ i. uuids (suc i)) (λ i. clock (suc i)))
      q'

-- The task that a Dequeue gave is acknowledged, and the loop goes on; or it has ended.
unfoldable pub process : Bool → Exec (Unit {0}) → Option ℕ → Exec (Unit {0})
unfolding ack
process syncs rest none q = pure tt q
process syncs rest (some p) q = let (r, q') = ack syncs (q.cell p).id q in go_on r (λ _. rest) q'

unfoldable pub consume : ℕ → (ℕ → Bool) → (ℕ → ℕ) → Exec (Unit {0})
unfolding dequeue process
consume zero syncs clock q = (out_of_fuel, q)
consume (suc fuel) syncs clock q =
    let rest = consume fuel (λ i. syncs (suc i)) (λ i. clock (suc i)) in
    let (r, q') = dequeue (clock 0) q in go_on r (process (syncs 0) rest) q'

-- Each round takes a task off the ready heap, so its length bounds them.
unfoldable pub drain_all : (ℕ → Bool) → (ℕ → ℕ) → Exec (Unit {0})
unfolding consume
drain_all syncs clock q = consume (length q.ready + 1) syncs clock q

-- The answer is the number of dead tasks, which the demo prints at last.
unfoldable pub demo : (ℕ → Bool) → (ℕ → ℕ) → (ℕ → ℕ) → (ℕ → Bool) → (ℕ → ℕ) → Exec ℕ
unfolding enqueue_keys drain_all dlq_len
demo syncs uuids clock ack_syncs ack_clock q =
    let (r, q') = enqueue_keys email_keys syncs uuids clock q in
    go_on r
      (λ _ q''. let (s, q3) = drain_all ack_syncs ack_clock q'' in go_on s (λ _. gets dlq_len) q3)
      q'
