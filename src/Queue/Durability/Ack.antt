-- ===== src/Queue/Durability/Ack.antt =====
-- Ack and Dequeue keep the log (internal/queue/queue.go).
use gojobs.Prelude.{
  ℕ, ◌^◌, ◌<◌, ◌≡◌, refl, Bool, true, false, Option, some, none, List, [], ◌∷◌, arith, Bool-cases,
  inl, inr,
}
use gojobs.Prelude.Map.{nat_eq, lookup}
use gojobs.Clock.{after}
use gojobs.Record.Payload.{ack}
use gojobs.Record.Encode.{body}
use gojobs.Queue.State.{Queue}
use gojobs.Queue.Methods
use gojobs.Queue.Methods.{lease, dequeue, dequeue_from}
use gojobs.Queue.Spec.{view, transition, entry_at, entry_of}
use gojobs.Queue.Spec.Moves.{Holds, unchanged, dropped}
use gojobs.Queue.Durability.{IsSound, Keeps, Amends, quiet, noted, Amends-Keeps}

module _ (q : Queue) (sound : IsSound q) where
  pub Holds-self : Holds q (view q)
  Holds-self = record { holds = refl; well = sound.well }

  pub live_bound : (id p : ℕ) → lookup id q.index ≡ some p → id < 2 ^ 128
  unfolding view
  live_bound id p e = sound.bounded.live_id id (entry_of (q.cell p)) (rw (e, entry_at))

  pub live_entry :
      (id p : ℕ) → lookup id q.index ≡ some p → (view q).live id ≡ some (entry_of (q.cell p))
  unfolding view
  live_entry id p e = rw (e, entry_at)

  ack_found :
      (syncs : Bool) (id : ℕ) (o : Option ℕ)
      → lookup id q.index ≡ o
      → Amends q (Methods.ack syncs id q).1
  unfolding Methods.ack body transition
  ack_found syncs id none e = rw e (quiet refl refl Holds-self)
  ack_found false id (some p) e = rw e (quiet refl refl Holds-self)
  ack_found true id (some p) e = rw e (
      noted (ack (record { id = id })) _ _ refl (live_bound id p e) tt refl refl refl
        (dropped q _ sound.well refl refl id (λ x. ground arith) refl refl) tt
        (entry_of (q.cell p), live_entry id p e))

  -- Ack keeps the log, whether it finds the task or not and whether the log takes the record or not.
  pub ack-Amends : (syncs : Bool) (id : ℕ) → Amends q (Methods.ack syncs id q).1
  ack-Amends syncs id = ack_found syncs id _ refl

  lease-Amends : (now : ℕ) → Amends q (lease now q).1
  unfolding lease
  lease-Amends now =
      quiet refl refl (unchanged q _ sound.well refl refl (λ x. ground arith) refl refl)

  dequeue_from-Amends : (ready : List ℕ) (now : ℕ) → Amends q (dequeue_from ready now q).1
  unfolding dequeue_from
  dequeue_from-Amends [] now = quiet refl refl Holds-self
  dequeue_from-Amends (root ∷ rest) now = elim (Bool-cases (after (q.cell root).available_at now)) [
    | inl late ↦ rw late (quiet refl refl Holds-self)
    | inr due ↦ rw due (lease-Amends now)
  ]

  -- Dequeue is not logged, and changes nothing that the log must know.
  pub dequeue-Amends : (now : ℕ) → Amends q (dequeue now q).1
  unfolding dequeue
  dequeue-Amends now = dequeue_from-Amends q.ready now

  pub ack-Keeps : (syncs : Bool) (id : ℕ) → Keeps q (Methods.ack syncs id q).1
  ack-Keeps syncs id = Amends-Keeps (ack-Amends syncs id)

  pub dequeue-Keeps : (now : ℕ) → Keeps q (dequeue now q).1
  dequeue-Keeps now = Amends-Keeps (dequeue-Amends now)
