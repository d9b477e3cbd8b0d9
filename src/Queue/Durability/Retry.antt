-- ===== src/Queue/Durability/Retry.antt =====
-- Retry keeps the log (internal/queue/queue.go: retryLocked, Retry).
use gojobs.Prelude.{
  ℕ, ◌+◌, ◌^◌, ◌<◌, ◌≤◌, ◌≡◌, refl, true, false, Option, some, none, arith, Bool-cases, inl, inr,
  ltb,
}
use gojobs.Prelude.Map.{nat_eq, lookup}
use gojobs.Clock.{HasUnixNano, before}
use gojobs.Record.Payload.{retry, dead}
use gojobs.Record.Encode.{body}
use gojobs.Queue.State.{Queue, go_on}
use gojobs.Queue.Methods.{Env, retry_locked, sweep_entry}
use gojobs.Queue.Spec.{Entry, view, transition, entry_at, entry_of}
use gojobs.Queue.Spec.Moves.{rewritten, buried}
use gojobs.Queue.Durability.{IsSound, Keeps, Amends, quiet, noted, Amends-Keeps}
use gojobs.Queue.Durability.Ack.{Holds-self, live_bound}

module _ (q : Queue) (sound : IsSound q) (env : Env) (id p : ℕ)
    (e : lookup id q.index ≡ some p) where
  live_entry : (view q).live id ≡ some (entry_of (q.cell p))
  unfolding view
  live_entry = rw (e, entry_at)

  room : (q.cell p).retries + 1 < 2 ^ 32
  room = omega (arith, sound.room, sound.bounded.live_retries id _ live_entry)

  bury-Amends :
      env.syncs ≡ true
      → HasUnixNano env.now
      → ltb q.max_retries ((q.cell p).retries + 1) ≡ true
      → Amends q (retry_locked env id q).1
  unfolding retry_locked body transition
  bury-Amends syncs clock dies =
      rw (e, go_on, dies, syncs)
        (noted (dead (record { id = id; retries = (q.cell p).retries + 1; failed_at = env.now })) _
          _ refl (live_bound q sound id p e, room, clock) tt (rw (live_entry, transition)) refl refl
          (buried q _ sound.well refl refl id p
            (record (entry_of (q.cell p)) { retries = (q.cell p).retries + 1; failed_at = env.now })
            (sound.well.index_id id p e) (λ x. ground arith) e refl refl)
          tt tt)

  put_back-Amends :
      env.syncs ≡ true
      → ltb q.max_retries ((q.cell p).retries + 1) ≡ false
      → Amends q (retry_locked env id q).1
  unfolding retry_locked body transition
  put_back-Amends syncs lives =
      rw (e, go_on, lives, syncs)
        (noted (retry (record { id = id })) _ _ refl (live_bound q sound id p e) tt
          (rw (live_entry, transition)) refl refl
          (rewritten q _ sound.well refl refl id p
            (record (entry_of (q.cell p)) { retries = (q.cell p).retries + 1 })
            (sound.well.index_id id p e) (λ x. ground arith) e refl refl)
          (λ x h. left x h) tt)
    where
      left : (x : Entry) → (view q).live id ≡ some x → x.retries + 1 ≤ q.max_retries
      left x h = ground (arith, live_entry)

  -- The log does not take the record.
  refused-Amends : env.syncs ≡ false → Amends q (retry_locked env id q).1
  unfolding retry_locked
  refused-Amends syncs = elim (Bool-cases (ltb q.max_retries ((q.cell p).retries + 1))) [
    | inl dies ↦ rw (e, go_on, dies, syncs) (quiet refl refl (Holds-self q sound))
    | inr lives ↦ rw (e, go_on, lives, syncs) (quiet refl refl (Holds-self q sound))
  ]

  found-Amends : HasUnixNano env.now → Amends q (retry_locked env id q).1
  found-Amends clock = elim (Bool-cases env.syncs) [
    | inl syncs ↦ elim (Bool-cases (ltb q.max_retries ((q.cell p).retries + 1))) [
      | inl dies ↦ bury-Amends syncs clock dies
      | inr lives ↦ put_back-Amends syncs lives
    ]
    | inr fails ↦ refused-Amends fails
  ]

module _ (q : Queue) (sound : IsSound q) (env : Env) (id : ℕ) (clock : HasUnixNano env.now) where
  lookup-Amends : (o : Option ℕ) → lookup id q.index ≡ o → Amends q (retry_locked env id q).1
  lookup-Amends none e = unfold retry_locked in rw (e, go_on) (quiet refl refl (Holds-self q sound))
  lookup-Amends (some p) e = found-Amends q sound env id p e clock

  -- Retry keeps the log: a task with a retry left goes back, one with none left is dead, and both
  -- are as the record says; on an error nothing is changed.
  pub retry-Amends : Amends q (retry_locked env id q).1
  retry-Amends = lookup-Amends _ refl

  pub retry-Keeps : Keeps q (retry_locked env id q).1
  retry-Keeps = Amends-Keeps retry-Amends

pub sweep_entry-Amends :
    (q : Queue) (sound : IsSound q) (env : Env) (id : ℕ) (o : Option ℕ)
    → HasUnixNano env.now
    → Amends q (sweep_entry env id o q).1
unfolding sweep_entry
sweep_entry-Amends q sound env id none clock = quiet refl refl (Holds-self q sound)
sweep_entry-Amends q sound env id (some p) clock =
    elim (Bool-cases (before (q.cell p).lease_until env.now)) [
      | inl late ↦ rw late (retry-Amends q sound env id clock)
      | inr held ↦ rw held (quiet refl refl (Holds-self q sound))
    ]
