-- ===== src/LoadTest/Conservation.antt =====
-- What every turn of the load test keeps (cmd/loadtest/workload.go).
pub mod Answers
pub mod Turns
pub mod Production
pub mod Verdict
use gojobs.Prelude.{
  ℕ, ◌+◌, ◌<◌, ◌≡◌, refl, ap, ◌∙◌, Bool, true, false, Option, some, none, List, [], ◌∷◌, length,
  ◌||◌, ◌==◌, arith, if◌then◌else◌, Bool-cases, inl, inr,
}
use gojobs.Prelude.Int.{pos}
use gojobs.Prelude.Map.{bytes_key, nat_eq, lookup}
use gojobs.Prelude.Map.Size.{has, IsMap}
use gojobs.Queue.State.{Queue}
use gojobs.Queue.Durability.{IsSound}
use gojobs.Queue.Ledger.{held, holds_id, Known, IsBooked, SameBooks, Known-same}
use gojobs.LoadTest.Store.{EffectStore, landed}
use gojobs.LoadTest.Keys.{producer_key}
use gojobs.LoadTest.Workload.{Stage, looking, holding, effected, stopped}
use gojobs.LoadTest.World.{World, at}

-- A consumer holds a task that was enqueued, and acknowledges it only after its effect.
abbrev pub InHand : Queue → EffectStore → Stage → Type 0
InHand q s looking = Unit
InHand q s (holding p) = Known q p
InHand q s (effected p) = Known q p × (landed (q.cell p).idempotency_key s ≡ true)
InHand q s stopped = Unit

pub record IsConserved (w : World) : Type 0 where
  pub sound : IsSound w.load.queue
  pub booked : IsBooked w.load.queue
  pub store_map : IsMap w.load.store.applied
  pub tasks : held w.load.queue + w.load.stats.acked ≡ w.load.stats.produced
  pub keys : length w.load.queue.index_of_idem_keys ≡ w.load.stats.produced
  pub settled :
      (k : List ℕ) (id : ℕ)
      → lookup k w.load.queue.index_of_idem_keys ≡ some id
      → holds_id w.load.queue id || landed k w.load.store ≡ true
  pub produced_only :
      (k : List ℕ) → landed k w.load.store ≡ true → has k w.load.queue.index_of_idem_keys ≡ true
  pub numbered :
      (id seq : ℕ)
      → has (producer_key id seq) w.load.queue.index_of_idem_keys ≡ true
      → seq < (w.producers id).seq
  pub no_shortfall : w.load.stats.shortfall ≡ pos 0
  pub hands : (c : ℕ) → InHand w.load.queue w.load.store (w.consumers c)

-- What a task in hand needs of a change.
pub record Carries (q q' : Queue) (s s' : EffectStore) : Type 0 where
  pub known : (p : ℕ) → Known q p → Known q' p
  pub keys : (p : ℕ) → p < q.next → (q'.cell p).idempotency_key ≡ (q.cell p).idempotency_key
  pub grows : (k : List ℕ) → landed k s ≡ true → landed k s' ≡ true

pub InHand-carried :
    {q q' : Queue} {s s' : EffectStore}
    → Carries q q' s s'
    → (st : Stage) → InHand q s st
    → InHand q' s' st
InHand-carried c looking h = tt
InHand-carried c (holding p) h = c.known p h
InHand-carried c (effected p) (k, l) = (c.known p k, rw (c.keys p k.below) (c.grows _ l))
InHand-carried c stopped h = tt

pub InHand-at :
    {q q' : Queue} {s s' : EffectStore} (carries : Carries q q' s s') (f : ℕ → Stage) (c : ℕ)
    (st : Stage)
    → ((j : ℕ) → InHand q s (f j))
    → InHand q' s' st
    → (j : ℕ) → InHand q' s' (at f c st j)
InHand-at carries f c st h new j = elim (Bool-cases (c == j)) [
  | inl e ↦ rw e new
  | inr e ↦ rw e (InHand-carried carries (f j) (h j))
]

pub SameBooks-Carries : {q q' : Queue} (s : EffectStore) → SameBooks q q' → Carries q q' s s
SameBooks-Carries s b = record {
  known = λ p k. Known-same p b.next (b.ids p) (b.keys p) b.index_of_keys k;
  keys = λ p h. b.keys p;
  grows = λ k h. h;
}

-- The tasks are the same, and effects of produced tasks may have landed.
pub IsConserved-same :
    (w w' : World)
    → IsConserved w
    → SameBooks w.load.queue w'.load.queue
    → IsSound w'.load.queue
    → IsMap w'.load.store.applied
    → ((k : List ℕ) → landed k w.load.store ≡ true → landed k w'.load.store ≡ true)
    → ((k : List ℕ) → landed k w'.load.store ≡ true → has k w.load.queue.index_of_idem_keys ≡ true)
    → w'.load.stats.produced ≡ w.load.stats.produced
    → w'.load.stats.acked ≡ w.load.stats.acked
    → w'.load.stats.shortfall ≡ w.load.stats.shortfall
    → w'.producers ≡ w.producers
    → ((c : ℕ) → InHand w'.load.queue w'.load.store (w'.consumers c))
    → IsConserved w'
IsConserved-same w w' h b sound store grows only produced acked short producers hands = record {
  sound = sound;
  booked = b.booked;
  store_map = store;
  tasks = omega (arith, h.tasks, b.count, produced, acked);
  keys = ap length b.index_of_keys ∙ (h.keys ∙ omega (arith, produced));
  settled = λ k id e.
      let before = h.settled k id (rw b.index_of_keys at e) in
      grind (arith, before, b.tasks id, grows k);
  produced_only = λ k e. rw b.index_of_keys (only k e);
  numbered = λ id seq e. rw producers (h.numbered id seq (rw b.index_of_keys at e));
  no_shortfall = short ∙ h.no_shortfall;
  hands = hands;
}
