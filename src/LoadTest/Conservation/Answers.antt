-- ===== src/LoadTest/Conservation/Answers.antt =====
-- What Dequeue and Ack answer a consumer (internal/queue/queue.go).
use gojobs.Prelude.{
  ℕ, ◌<◌, ◌≡◌, refl, ap, Bool, true, false, some, none, List, [], ◌∷◌, length, arith, Bool-cases,
  inl, inr,
}
use gojobs.Prelude.Run.{ok, err, task_not_found, io_error}
use gojobs.Prelude.Map.{bytes_key, nat_eq, lookup}
use gojobs.Clock.{after}
use gojobs.ReadyHeap.{heap_pop}
use gojobs.ReadyHeap.Items.{heap_pop-SameItems}
use gojobs.Queue.State.{Queue, go_on}
use gojobs.Queue.Methods.{dequeue, dequeue_from, lease, ack}
use gojobs.Queue.Ledger.{Known, IsBooked}

-- What Dequeue hands out was enqueued.
module _ (q : Queue) (h : IsBooked q) where
  lease-Known : (now p : ℕ) → 0 < length q.ready → (lease now q).0 ≡ ok (some p) → Known q p
  unfolding lease
  lease-Known now p full e =
      let same : (heap_pop q.cell q.ready).0 ≡ p = cc in
      h.ready_known p (grind (arith, heap_pop-SameItems q.cell q.ready full p, same))

  dequeue_from-Known :
      (now p : ℕ) (ready : List ℕ)
      → q.ready ≡ ready
      → (dequeue_from ready now q).0 ≡ ok (some p)
      → Known q p
  unfolding dequeue_from
  dequeue_from-Known now p [] r e = cc
  dequeue_from-Known now p (root ∷ rest) r e =
      elim (Bool-cases (after (q.cell root).available_at now)) [
        | inl late ↦ absurd (not_some (rw late at e))
        | inr due ↦ lease-Known now p (omega (arith, ap length r)) (rw due at e)
      ]
    where
      not_some : ok none ≡ ok (some p) → ⊥
      not_some x = cc

  pub dequeue-Known : (now p : ℕ) → (dequeue now q).0 ≡ ok (some p) → Known q p
  unfolding dequeue
  dequeue-Known now p e = dequeue_from-Known now p q.ready refl e

-- What Ack answers.
module _ (q : Queue) (id : ℕ) where
  pub ack_absent :
      (syncs : Bool) → lookup id q.index ≡ none → ack syncs id q ≡ (err task_not_found, q)
  unfolding ack
  ack_absent syncs e = rw (e, go_on) refl

  pub ack_lost : (a : ℕ) → lookup id q.index ≡ some a → ack false id q ≡ (err io_error, q)
  unfolding ack
  ack_lost a e = rw (e, go_on) refl

  pub ack_done : (a : ℕ) → lookup id q.index ≡ some a → ack true id q ≡ (ok tt, (ack true id q).1)
  unfolding ack
  ack_done a e = rw (e, go_on) refl
