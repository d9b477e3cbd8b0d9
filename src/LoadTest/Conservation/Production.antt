-- ===== src/LoadTest/Conservation/Production.antt =====
-- The turn of a producer (cmd/loadtest/workload.go: startProducers).
use gojobs.Prelude.{
  ℕ, ◌≡◌, ◌≢◌, refl, ap, ◌∙◌, Bool, true, false, Option, some, none, List, [], ◌∷◌, length, arith,
  bytes_eq_iff,
}
use gojobs.Prelude.Run.{ok, err, io_error}
use gojobs.Prelude.Map.{bytes_key, nat_eq, lookup, lookup-put}
use gojobs.Prelude.Map.Size.{has-put, length-put}
use gojobs.Record.Payload.{enqueue}
use gojobs.Record.RoundTrip.{Fits}
use gojobs.Queue.State.{Queue}
use gojobs.Queue.Methods
use gojobs.Queue.Methods.{existing, has_key}
use gojobs.Queue.Spec.{view, entry_at}
use gojobs.Queue.Recovery.Refines.{Admits}
use gojobs.Queue.Durability.{IsSound, Keeps-IsSound}
use gojobs.Queue.Durability.Enqueue.{enqueue_fields}
use gojobs.Queue.Durability.Recovered.{enqueues, acknowledged-Keeps}
use gojobs.Queue.Idempotency.{enqueue_lost, enqueue_new}
use gojobs.Queue.Ledger.{holds_id}
use gojobs.Queue.Ledger.Changes.{AddsTask, enqueue-AddsTask}
use gojobs.LoadTest.Keys.{producer_key, producer_key-injective}
use gojobs.LoadTest.Workload.{produce, counted}
use gojobs.LoadTest.World.{World, after_produce}
use gojobs.LoadTest.Conservation.{IsConserved, InHand-carried}

module _ (w : World) (h : IsConserved w) (id uuid now : ℕ) where
  abbrev next_key : List ℕ
  next_key = producer_key id (w.producers id).seq

  -- A producer's next key leads nowhere yet.
  unused_key : (o : Option ℕ) → lookup next_key w.load.queue.index_of_idem_keys ≡ o → o ≡ none
  unused_key none e = refl
  unused_key (some old) e =
      absurd (omega (arith, h.numbered id (w.producers id).seq (ground (arith, e))))

  unused_existing : existing next_key w.load.queue ≡ none
  unfolding existing producer_key
  unused_existing = unused_key _ refl

  added-IsConserved :
      (q : Queue)
      → AddsTask next_key uuid w.load.queue q
      → IsSound q
      → IsConserved (after_produce id w (counted w.load (ok uuid, q)))
  added-IsConserved q d s =
      let absent = unused_key _ refl in
      record {
        sound = s;
        booked = d.booked;
        store_map = h.store_map;
        tasks = omega (arith, h.tasks, d.count);
        keys =
            ap length d.index_of_keys
            ∙ grind (
              arith,
              length-put next_key uuid w.load.queue.index_of_idem_keys h.booked.keys_map,
              absent,
              h.keys,
            );
        settled = λ k j e. grind (
          arith,
          d.tasks j,
          h.settled k j,
          rw d.index_of_keys at e,
          lookup-put next_key k uuid w.load.queue.index_of_idem_keys,
        );
        produced_only = λ k e. rw d.index_of_keys (
            grind (
              arith,
              has-put next_key k uuid w.load.queue.index_of_idem_keys,
              h.produced_only k e,
            ));
        numbered = λ i seq e. grind (
          arith,
          has-put next_key (producer_key i seq) uuid w.load.queue.index_of_idem_keys,
          rw d.index_of_keys at e,
          h.numbered i seq,
          bytes_eq_iff next_key (producer_key i seq),
          producer_key-injective id (w.producers id).seq i seq,
        );
        no_shortfall = h.no_shortfall;
        hands = λ c.
            InHand-carried {s = w.load.store} {s' = w.load.store}
              (record { known = d.known; keys = d.same_keys; grows = λ k e. e }) (w.consumers c)
              (h.hands c);
      }

  failed-IsConserved :
      IsConserved (after_produce id w (counted w.load (err io_error, w.load.queue)))
  failed-IsConserved = record {
    sound = h.sound;
    booked = h.booked;
    store_map = h.store_map;
    tasks = h.tasks;
    keys = h.keys;
    settled = h.settled;
    produced_only = h.produced_only;
    numbered = λ i seq e. grind (arith, h.numbered i seq e);
    no_shortfall = h.no_shortfall;
    hands = h.hands;
  }

  module _ (fits : Fits (enqueue (enqueue_fields (120 ∷ []) next_key uuid now)))
      (fresh : Admits (view w.load.queue) (enqueue (enqueue_fields (120 ∷ []) next_key uuid now)))
      (unused : (k : List ℕ) → lookup k w.load.queue.index_of_idem_keys ≢ some uuid) where
    not_held : holds_id w.load.queue uuid ≡ false
    unfolding view
    not_held = by_maps _ _ refl refl
      where
        by_maps :
            (o o' : Option ℕ)
            → lookup uuid w.load.queue.index ≡ o
            → lookup uuid w.load.queue.dlq ≡ o'
            → holds_id w.load.queue uuid ≡ false
        by_maps none none e f = grind (arith, e, f)
        by_maps (some a) o' e f = absurd (taken (rw e at fresh.0))
          where
            taken : entry_at w.load.queue.cell (some a) ≡ none → ⊥
            taken x = cc
        by_maps none (some a) e f = absurd (taken (rw f at fresh.1))
          where
            taken : entry_at w.load.queue.cell (some a) ≡ none → ⊥
            taken x = cc

    pub produce-IsConserved :
        (syncs : Bool)
        → IsConserved (after_produce id w (produce syncs id (w.producers id).seq uuid now w.load))
    unfolding produce
    produce-IsConserved false =
        rw (enqueue_lost (120 ∷ []) next_key uuid now w.load.queue unused_existing)
          failed-IsConserved
    produce-IsConserved true =
        let r = Methods.enqueue true (120 ∷ []) next_key uuid now w.load.queue in
        let done : r ≡ (ok uuid, r.1) =
          ap (λ x. (x, r.1))
            (enqueue_new (120 ∷ []) next_key uuid now w.load.queue unused_existing) in
        rw done (
          added-IsConserved r.1
            (enqueue-AddsTask w.load.queue h.booked (120 ∷ []) next_key uuid now unused_existing
              (unused_key _ refl) unused not_held)
            (Keeps-IsSound h.sound (
              acknowledged-Keeps h.sound
                (enqueues true (120 ∷ []) next_key uuid now fits fresh refl))))
