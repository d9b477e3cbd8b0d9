-- ===== src/Queue/Durability/DeadLetter.antt =====
-- RequeueDead and PurgeDeadTask keep the log (internal/queue/queue.go).
use gojobs.Prelude.{ℕ, ◌≡◌, refl, Bool, true, false, Option, some, none, arith}
use gojobs.Prelude.Map.{nat_eq, lookup}
use gojobs.Clock.{zero_time}
use gojobs.Record.Payload.{requeue, purge}
use gojobs.Record.Encode.{body}
use gojobs.Queue.State.{Queue, go_on}
use gojobs.Queue.DeadLetter.{requeue_dead, purge_dead_task}
use gojobs.Queue.Spec.{view, transition, entry_at, entry_of}
use gojobs.Queue.Spec.Moves.{revived, purged}
use gojobs.Queue.Durability.{IsSound, Keeps, Amends, quiet, noted, Amends-Keeps}
use gojobs.Queue.Durability.Ack.{Holds-self}

module _ (q : Queue) (sound : IsSound q) where
  dead_entry :
      (id p : ℕ) → lookup id q.dlq ≡ some p → (view q).dead_ones id ≡ some (entry_of (q.cell p))
  unfolding view
  dead_entry id p e = rw (e, entry_at)

  requeue_found :
      (syncs : Bool) (id : ℕ) (o : Option ℕ)
      → lookup id q.dlq ≡ o
      → Amends q (requeue_dead syncs id q).1
  unfolding requeue_dead body transition
  requeue_found syncs id none e = rw (e, go_on) (quiet refl refl (Holds-self q sound))
  requeue_found false id (some p) e = rw (e, go_on) (quiet refl refl (Holds-self q sound))
  requeue_found true id (some p) e =
      let entry = dead_entry id p e in
      rw (e, go_on)
        (noted (requeue (record { id = id })) _ _ refl (sound.bounded.dead_id id _ entry) tt
          (rw (entry, transition)) refl refl
          (revived q _ sound.well refl refl id p
            (record (entry_of (q.cell p)) { retries = 0; failed_at = zero_time })
            (sound.well.dlq_id id p e) (λ x. ground arith) e refl refl)
          tt tt)

  -- RequeueDead keeps the log: the dead task is live again, with no retries.
  pub requeue_dead-Amends : (syncs : Bool) (id : ℕ) → Amends q (requeue_dead syncs id q).1
  requeue_dead-Amends syncs id = requeue_found syncs id _ refl

  purge_found :
      (syncs : Bool) (id : ℕ) (o : Option ℕ)
      → lookup id q.dlq ≡ o
      → Amends q (purge_dead_task syncs id q).1
  unfolding purge_dead_task body transition
  purge_found syncs id none e = rw (e, go_on) (quiet refl refl (Holds-self q sound))
  purge_found false id (some p) e = rw (e, go_on) (quiet refl refl (Holds-self q sound))
  purge_found true id (some p) e =
      let entry = dead_entry id p e in
      rw (e, go_on)
        (noted (purge (record { id = id })) _ _ refl (sound.bounded.dead_id id _ entry) tt refl refl
          refl (purged q _ sound.well refl refl id (λ x. refl) refl refl) tt tt)

  -- PurgeDeadTask keeps the log: the dead task is gone.
  pub purge_dead_task-Amends : (syncs : Bool) (id : ℕ) → Amends q (purge_dead_task syncs id q).1
  purge_dead_task-Amends syncs id = purge_found syncs id _ refl

  pub requeue_dead-Keeps : (syncs : Bool) (id : ℕ) → Keeps q (requeue_dead syncs id q).1
  requeue_dead-Keeps syncs id = Amends-Keeps (requeue_dead-Amends syncs id)

  pub purge_dead_task-Keeps : (syncs : Bool) (id : ℕ) → Keeps q (purge_dead_task syncs id q).1
  purge_dead_task-Keeps syncs id = Amends-Keeps (purge_dead_task-Amends syncs id)
