-- ===== src/Queue/Retries.antt =====
-- What a retry does to its task (internal/queue/queue.go: retryLocked, generateBackoff).
use gojobs.Prelude.{
  ℕ, zero, suc, ◌+◌, ◌*◌, ◌^◌, ◌<◌, ◌≤◌, ◌≡◌, refl, true, false, some, none, ◌∷◌, arith, Bool-cases,
  inl, inr, ◌⊎◌, ltb, ltb→lt,
}
use gojobs.Prelude.Run.{Run, ok}
use gojobs.Prelude.Array.{SameItems}
use gojobs.Prelude.Map.{nat_eq, lookup, lookup-put, lookup-remove}
use gojobs.Task.{state_ready, state_dead}
use gojobs.ReadyHeap.Items.{heap_push-SameItems}
use gojobs.Queue.State.{Queue, go_on, update}
use gojobs.Queue.Backoff.{base_delay, max_delay, backoff_ceiling, generate_backoff}
use gojobs.Queue.Methods.{Env, retry, retry_locked}

-- The product of a number and a random one in [0, 1), rounded down.
abbrev pub IsJitter : (ℕ → ℕ) → Type 0
IsJitter scale = (c : ℕ) → 0 < c → scale c < c

pow_positive : (n : ℕ) → 0 < 2 ^ n
pow_positive zero = omega arith
pow_positive (suc n) = omega (arith, pow_positive n)

pub backoff_ceiling-bounds :
    (n : ℕ)
    → (0 < backoff_ceiling n)
      × (backoff_ceiling n ≤ max_delay)
      × (backoff_ceiling n ≤ base_delay * 2 ^ n)
unfolding backoff_ceiling
backoff_ceiling-bounds n = let positive = pow_positive n in ground arith

-- The task is dead, and no longer live or leased.
pub record Buried (env : Env) (id p : ℕ) (q after : Queue) : Type 0 where
  pub status : (after.cell p).status ≡ state_dead
  pub retries : (after.cell p).retries ≡ (q.cell p).retries + 1
  pub failed_at : (after.cell p).failed_at ≡ env.now
  pub dlq : lookup id after.dlq ≡ some p
  pub index : lookup id after.index ≡ none
  pub inflight : lookup id after.index_of_inflight ≡ none
  pub ready : after.ready ≡ q.ready

-- The task is ready again after a delay, live, and no longer leased.
pub record PutBack (env : Env) (id p : ℕ) (q after : Queue) : Type 0 where
  pub status : (after.cell p).status ≡ state_ready
  pub retries : (after.cell p).retries ≡ (q.cell p).retries + 1
  pub not_before : env.now ≤ (after.cell p).available_at
  pub before_cap : (after.cell p).available_at < env.now + max_delay
  pub before_double : (after.cell p).available_at < env.now + base_delay * 2 ^ (q.cell p).retries
  pub dlq : after.dlq ≡ q.dlq
  pub index : lookup id after.index ≡ some p
  pub inflight : lookup id after.index_of_inflight ≡ none
  pub ready : SameItems (p ∷ q.ready) after.ready

-- What a Retry comes to that found its task and whose record was taken.
abbrev pub Retried : Env → ℕ → ℕ → Queue → Run (Unit {0}) × Queue → Type 0
Retried env id p q (ok tt, q') =
    ((q.max_retries < (q.cell p).retries + 1) × Buried env id p q q')
    ⊎ (((q.cell p).retries + 1 ≤ q.max_retries) × PutBack env id p q q')
Retried env id p q _ = ⊥

module _ (env : Env) (id p : ℕ) (q : Queue) (found : lookup id q.index ≡ some p)
    (syncs : env.syncs ≡ true) where
  dies-Retried :
      ltb q.max_retries ((q.cell p).retries + 1) ≡ true → Retried env id p q (retry_locked env id q)
  unfolding retry_locked
  dies-Retried dies =
      rw (found, go_on, dies, syncs)
        (inl (
          ltb→lt _ _ dies,
          record {
            status = ground arith;
            retries = ground arith;
            failed_at = ground arith;
            dlq = grind (arith, lookup-put id id p q.dlq);
            index = grind (arith, lookup-remove id id q.index);
            inflight = grind (arith, lookup-remove id id q.index_of_inflight);
            ready = refl;
          },
        ))

  lives-Retried :
      IsJitter env.scale
      → ltb q.max_retries ((q.cell p).retries + 1) ≡ false
      → Retried env id p q (retry_locked env id q)
  unfolding retry_locked generate_backoff
  lives-Retried jitter lives =
      let bounds = backoff_ceiling-bounds (q.cell p).retries in
      let short = jitter (backoff_ceiling (q.cell p).retries) bounds.0 in
      let delay = env.scale (backoff_ceiling (q.cell p).retries) in
      let moved =
        update q.cell p
          (record (q.cell p) { status = state_ready; available_at = env.now + delay }) in
      rw (found, go_on, lives, syncs)
        (inr (
          ground arith,
          record {
            status = ground arith;
            retries = ground arith;
            not_before = ground arith;
            before_cap = ground arith;
            before_double = ground arith;
            dlq = refl;
            index = found;
            inflight = grind (arith, lookup-remove id id q.index_of_inflight);
            ready = heap_push-SameItems moved q.ready p;
          },
        ))

-- A Retry of a live task whose record the log takes returns. With more retries than the queue allows
-- the task is dead; otherwise it is ready again, its delay below 30 s and below 1 s doubled once per
-- earlier retry. Either way it has one retry more, and its lease is over.
pub retry-Retried :
    (env : Env) (id p : ℕ) (q : Queue)
    → lookup id q.index ≡ some p
    → env.syncs ≡ true
    → IsJitter env.scale
    → Retried env id p q (retry env id q)
unfolding retry
retry-Retried env id p q found syncs jitter =
    elim (Bool-cases (ltb q.max_retries ((q.cell p).retries + 1))) [
      | inl dies ↦ dies-Retried env id p q found syncs dies
      | inr lives ↦ lives-Retried env id p q found syncs jitter lives
    ]
