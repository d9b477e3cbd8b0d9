-- ===== src/Queue/Shrinking.antt =====
-- What Dequeue takes off the ready heap (internal/queue/queue.go: Dequeue, Ack).
use gojobs.Prelude.{
  ℕ, ◌+◌, ◌-◌, ◌<◌, ◌≡◌, refl, ap, Bool, true, false, Option, some, none, List, [], ◌∷◌, length,
  length-take, arith, Bool-cases, inl, inr,
}
use gojobs.Prelude.Run.{Run, ok}
use gojobs.Prelude.Map.{nat_eq, lookup}
use gojobs.Clock.{after}
use gojobs.Task.{Task}
use gojobs.ReadyHeap.{heap_pop, down, swap}
use gojobs.ReadyHeap.Items.{length-down, length-swap}
use gojobs.Queue.State.{Queue, go_on}
use gojobs.Queue.Methods.{dequeue, dequeue_from, lease, ack}

heap_pop-length :
    (cell : ℕ → Task) (h : List ℕ) → 0 < length h → length (heap_pop cell h).1 < length h
unfolding heap_pop
heap_pop-length cell h full =
    let n = length h - 1 in
    let rest = down cell (n + 1) (swap h 0 n) 0 n in
    omega (
      arith,
      length-take n rest
          (omega (arith, length-down cell (n + 1) (swap h 0 n) 0 n, length-swap h 0 n)),
    )

-- An answer with a task took one off the ready heap; an answer without one changed nothing.
abbrev pub Takes : Queue → Run (Option ℕ) × Queue → Type 0
Takes q (ok (some p), q') = length q'.ready < length q.ready
Takes q (ok none, q') = q' ≡ q
Takes q _ = ⊥

lease-Takes : (now : ℕ) (q : Queue) → 0 < length q.ready → Takes q (lease now q)
unfolding lease
lease-Takes now q full = heap_pop-length q.cell q.ready full

dequeue_from-Takes :
    (now : ℕ) (q : Queue) (ready : List ℕ) → q.ready ≡ ready → Takes q (dequeue_from ready now q)
unfolding dequeue_from
dequeue_from-Takes now q [] e = refl
dequeue_from-Takes now q (root ∷ rest) e =
    elim (Bool-cases (after (q.cell root).available_at now)) [
      | inl late ↦ rw late refl
      | inr due ↦ rw due (lease-Takes now q (omega (arith, ap length e)))
    ]

pub dequeue-Takes : (now : ℕ) (q : Queue) → Takes q (dequeue now q)
unfolding dequeue
dequeue-Takes now q = dequeue_from-Takes now q q.ready refl

pub ack-ready :
    (syncs : Bool) (id : ℕ) (q : Queue) (o : Option ℕ)
    → lookup id q.index ≡ o
    → (ack syncs id q).1.ready ≡ q.ready
unfolding ack
ack-ready syncs id q none e = rw (e, go_on) refl
ack-ready true id q (some p) e = rw (e, go_on) refl
ack-ready false id q (some p) e = rw (e, go_on) refl
