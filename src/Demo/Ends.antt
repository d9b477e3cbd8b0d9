-- ===== src/Demo/Ends.antt =====
-- The demo ends (cmd/taskq/main.go).
use gojobs.Prelude.{
  ℕ, zero, suc, ◌+◌, ◌<◌, ◌≤◌, ◌≡◌, refl, ap, ◌∙◌, Bool, true, false, Option, some, none, length,
  arith,
}
use gojobs.Prelude.Run.{Run, ok, err, panic, out_of_fuel}
use gojobs.Prelude.Map.{nat_eq, lookup}
use gojobs.Queue.State.{Queue, Exec, go_on}
use gojobs.Queue.Methods.{dequeue, ack}
use gojobs.Queue.Shrinking.{Takes, dequeue-Takes}
use gojobs.Demo.{process, consume, drain_all}

-- A call failed, or Dequeue found nothing that was due when it read the clock last.
abbrev pub IsDrained : (ℕ → ℕ) → Run (Unit {0}) × Queue → Type 0
IsDrained clock (ok x, q) = (i : ℕ) × (dequeue (clock i) q ≡ (ok none, q))
IsDrained clock (err e, q) = Unit
IsDrained clock _ = ⊥

-- The clock of a later round.
IsDrained-later :
    (clock : ℕ → ℕ) (r : Run (Unit {0}) × Queue)
    → IsDrained (λ i. clock (suc i)) r
    → IsDrained clock r
IsDrained-later clock (ok x, q) (i, e) = (suc i, e)
IsDrained-later clock (err e, q) h = tt
IsDrained-later clock (panic, q) h = h
IsDrained-later clock (out_of_fuel, q) h = h

-- Ack returns, and leaves the ready heap as it is.
abbrev Answers : Queue → Run (Unit {0}) × Queue → Type 0
Answers q (ok x, q') = q'.ready ≡ q.ready
Answers q (err e, q') = Unit
Answers q _ = ⊥

ack-Answers :
    (syncs : Bool) (id : ℕ) (q : Queue) (o : Option ℕ)
    → lookup id q.index ≡ o
    → Answers q (ack syncs id q)
unfolding ack
ack-Answers syncs id q none e = rw (e, go_on) tt
ack-Answers true id q (some p) e = rw (e, go_on) refl
ack-Answers false id q (some p) e = rw (e, go_on) tt

process-IsDrained :
    (clock : ℕ → ℕ) (rest : Exec (Unit {0})) (q : Queue) (r : Run (Unit {0}) × Queue)
    → Answers q r
    → ((q' : Queue) → q'.ready ≡ q.ready → IsDrained clock (rest q'))
    → IsDrained clock (go_on r.0 (λ _. rest) r.1)
process-IsDrained clock rest q (ok x, q') h ends = ends q' h
process-IsDrained clock rest q (err e, q') h ends = tt
process-IsDrained clock rest q (panic, q') h ends = h
process-IsDrained clock rest q (out_of_fuel, q') h ends = h

round-IsDrained :
    (clock : ℕ → ℕ) (fuel : ℕ) (syncs : Bool) (rest : Exec (Unit {0})) (q : Queue)
    (r : Run (Option ℕ) × Queue)
    → dequeue (clock 0) q ≡ r
    → Takes q r
    → length q.ready ≤ fuel
    → ((q' : Queue) → length q'.ready < fuel → IsDrained clock (rest q'))
    → IsDrained clock (go_on r.0 (process syncs rest) r.1)
unfolding process
round-IsDrained clock fuel syncs rest q (ok none, q') e h room ends =
    (0, rw h (e ∙ ap (λ x. (ok none, x)) h))
round-IsDrained clock fuel syncs rest q (ok (some p), q') e h room ends =
    process-IsDrained clock rest q' (ack syncs (q'.cell p).id q')
      (ack-Answers syncs (q'.cell p).id q' _ refl)
      (λ q'' same. ends q'' (omega (arith, h, room, ap length same)))
round-IsDrained clock fuel syncs rest q (err e, q') f h room ends = absurd h
round-IsDrained clock fuel syncs rest q (panic, q') f h room ends = absurd h
round-IsDrained clock fuel syncs rest q (out_of_fuel, q') f h room ends = absurd h

consume-IsDrained :
    (fuel : ℕ) (syncs : ℕ → Bool) (clock : ℕ → ℕ) (q : Queue)
    → length q.ready < fuel
    → IsDrained clock (consume fuel syncs clock q)
unfolding consume
consume-IsDrained zero syncs clock q h = absurd (omega arith)
consume-IsDrained (suc fuel) syncs clock q h =
    round-IsDrained clock fuel (syncs 0) (consume fuel (λ i. syncs (suc i)) (λ i. clock (suc i))) q
      (dequeue (clock 0) q) refl (dequeue-Takes (clock 0) q) (omega arith)
      (λ q' h.
        IsDrained-later clock (consume fuel (λ i. syncs (suc i)) (λ i. clock (suc i)) q')
          (consume-IsDrained fuel (λ i. syncs (suc i)) (λ i. clock (suc i)) q' h))

-- The loop of the demo ends on any queue, whatever Ack answers: after as many rounds as tasks are ready,
-- and one more, a call failed, or Dequeue finds nothing that is due at a time that the loop read.
pub drain_all-IsDrained :
    (syncs : ℕ → Bool) (clock : ℕ → ℕ) (q : Queue) → IsDrained clock (drain_all syncs clock q)
unfolding drain_all
drain_all-IsDrained syncs clock q =
    consume-IsDrained (length q.ready + 1) syncs clock q (omega arith)
