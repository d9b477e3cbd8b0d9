-- ===== src/LoadTest/Conservation/Turns.antt =====
-- The turns of consumers, of the drain and of the sweeper (cmd/loadtest/workload.go).
use gojobs.Prelude.{
  ℕ, ◌≡◌, refl, ap, ◌∙◌, Bool, true, false, Option, some, none, List, length, arith, bytes_eq_iff,
  bytes_eq_self,
}
use gojobs.Prelude.Run.{Run, ok, err, panic, out_of_fuel}
use gojobs.Prelude.Map.{bytes_key, nat_eq, lookup}
use gojobs.Prelude.Map.Size.{has}
use gojobs.Clock.{HasUnixNano}
use gojobs.Queue.State.{Queue}
use gojobs.Queue.Methods.{Env, dequeue, ack, retry, sweep_entry}
use gojobs.Queue.DeadLetter.{requeue_dead}
use gojobs.Queue.Durability.{IsSound, Keeps-IsSound}
use gojobs.Queue.Durability.Recovered.{
  dequeues, acks, retries, sweeps, requeues, acknowledged-Keeps,
}
use gojobs.Queue.Ledger.{Known, SameBooks, IsBooked-self}
use gojobs.Queue.Ledger.Sames.{
  dequeue-SameBooks, retry-SameBooks, sweep_entry-SameBooks, requeue_dead-SameBooks,
}
use gojobs.Queue.Ledger.Changes.{DropsTask, ack-DropsTask}
use gojobs.LoadTest.Store.{landed, apply, apply-landed, apply-IsMap}
use gojobs.LoadTest.Workload.{
  Load, Stage, looking, holding, effected, stopped, take_task, taken, handle, hand_back,
  handed_back, finish, finished,
}
use gojobs.LoadTest.World.{World, after_stage, with_queue}
use gojobs.LoadTest.Conservation.{
  InHand, IsConserved, Carries, InHand-carried, InHand-at, SameBooks-Carries, IsConserved-same,
}
use gojobs.LoadTest.Conservation.Answers.{dequeue-Known, ack_absent, ack_lost, ack_done}

module _ (w : World) (h : IsConserved w) where
  -- Only the queue changes, and where one consumer stands.
  moved :
      (c : ℕ) (st : Stage) (l : Load)
      → SameBooks w.load.queue l.queue
      → IsSound l.queue
      → l.store ≡ w.load.store
      → l.stats.produced ≡ w.load.stats.produced
      → l.stats.acked ≡ w.load.stats.acked
      → l.stats.shortfall ≡ w.load.stats.shortfall
      → InHand l.queue w.load.store st
      → IsConserved (after_stage c w (st, l))
  moved c st l b s store produced acked short hand =
      IsConserved-same w (after_stage c w (st, l)) h b s (rw store h.store_map) (λ k e. rw store e)
        (λ k e. h.produced_only k (rw store at e)) produced acked short refl
        (rw store (InHand-at (SameBooks-Carries w.load.store b) w.consumers c st h.hands hand))

  taken-IsConserved :
      (c : ℕ) (r : Run (Option ℕ) × Queue)
      → SameBooks w.load.queue r.1
      → IsSound r.1
      → ((p : ℕ) → r.0 ≡ ok (some p) → Known w.load.queue p)
      → IsConserved (after_stage c w (taken w.load r))
  taken-IsConserved c (ok none, q) b s k = moved c looking _ b s refl refl refl refl tt
  taken-IsConserved c (ok (some p), q) b s k =
      moved c (holding p) _ b s refl refl refl refl
        ((SameBooks-Carries w.load.store b).known p (k p refl))
  taken-IsConserved c (err e, q) b s k = moved c stopped _ b s refl refl refl refl tt
  taken-IsConserved c (panic, q) b s k = moved c stopped _ b s refl refl refl refl tt
  taken-IsConserved c (out_of_fuel, q) b s k = moved c stopped _ b s refl refl refl refl tt

  pub take_task-IsConserved : (c now : ℕ) → IsConserved (after_stage c w (take_task now w.load))
  unfolding take_task
  take_task-IsConserved c now =
      taken-IsConserved c (dequeue now w.load.queue) (dequeue-SameBooks w.load.queue h.booked now)
        (Keeps-IsSound h.sound (acknowledged-Keeps h.sound (dequeues now refl)))
        (dequeue-Known w.load.queue h.booked now)

  handed_back-IsConserved :
      (c : ℕ) (r : Run (Unit {0}) × Queue)
      → SameBooks w.load.queue r.1
      → IsSound r.1
      → IsConserved (after_stage c w (handed_back w.load r))
  handed_back-IsConserved c (ok x, q) b s = moved c looking _ b s refl refl refl refl tt
  handed_back-IsConserved c (err e, q) b s = moved c stopped _ b s refl refl refl refl tt
  handed_back-IsConserved c (panic, q) b s = moved c stopped _ b s refl refl refl refl tt
  handed_back-IsConserved c (out_of_fuel, q) b s = moved c stopped _ b s refl refl refl refl tt

  module _ (c p : ℕ) (known : Known w.load.queue p) where
    effect_grows :
        (k : List ℕ)
        → landed k w.load.store ≡ true
        → landed k (apply (w.load.queue.cell p).idempotency_key w.load.store) ≡ true
    effect_grows k e =
        grind (arith, apply-landed (w.load.queue.cell p).idempotency_key k w.load.store, e)

    effect_of_produced :
        (k : List ℕ)
        → landed k (apply (w.load.queue.cell p).idempotency_key w.load.store) ≡ true
        → has k w.load.queue.index_of_idem_keys ≡ true
    effect_of_produced k e = grind (
      arith,
      apply-landed (w.load.queue.cell p).idempotency_key k w.load.store,
      e,
      h.produced_only k,
      known.keyed,
      bytes_eq_iff (w.load.queue.cell p).idempotency_key k,
    )

    -- The effect of a task in hand lands, and one counter may move.
    effect-IsConserved :
        (st : Stage) (l : Load)
        → l.queue ≡ w.load.queue
        → l.store ≡ apply (w.load.queue.cell p).idempotency_key w.load.store
        → l.stats.produced ≡ w.load.stats.produced
        → l.stats.acked ≡ w.load.stats.acked
        → l.stats.shortfall ≡ w.load.stats.shortfall
        → InHand w.load.queue (apply (w.load.queue.cell p).idempotency_key w.load.store) st
        → IsConserved (after_stage c w (st, l))
    effect-IsConserved st l queue store produced acked short hand =
        let carries : Carries w.load.queue w.load.queue w.load.store
            (apply (w.load.queue.cell p).idempotency_key w.load.store) =
          record { known = λ j k. k; keys = λ j k. refl; grows = effect_grows } in
        IsConserved-same w (after_stage c w (st, l)) h
          (rw queue (IsBooked-self w.load.queue h.booked)) (rw queue h.sound)
          (rw store (apply-IsMap (w.load.queue.cell p).idempotency_key w.load.store h.store_map))
          (λ k e. rw store (effect_grows k e)) (λ k e. effect_of_produced k (rw store at e))
          produced acked short refl
          (rw (queue, store) (InHand-at carries w.consumers c st h.hands hand))

    pub handle-IsConserved :
        (fails crashes : Bool) (env : Env)
        → HasUnixNano env.now
        → IsConserved (after_stage c w (handle fails crashes env p w.load))
    unfolding handle hand_back
    handle-IsConserved true true env clock =
        effect-IsConserved looking _ refl refl refl refl refl tt
    handle-IsConserved true false env clock =
        handed_back-IsConserved c (retry env (w.load.queue.cell p).id w.load.queue)
          (retry-SameBooks w.load.queue h.booked h.sound.well env (w.load.queue.cell p).id)
          (Keeps-IsSound h.sound
            (acknowledged-Keeps h.sound (retries env (w.load.queue.cell p).id clock refl)))
    handle-IsConserved false crashes env clock =
        effect-IsConserved (effected p) _ refl refl refl refl refl (
          known,
          grind (
            arith,
            apply-landed (w.load.queue.cell p).idempotency_key (w.load.queue.cell p).idempotency_key
                w.load.store,
            bytes_eq_self (w.load.queue.cell p).idempotency_key,
          ),
        )

  -- A task whose effect has landed is acknowledged.
  dropped-IsConserved :
      (c p : ℕ) (q : Queue)
      → Known w.load.queue p
      → landed (w.load.queue.cell p).idempotency_key w.load.store ≡ true
      → DropsTask (w.load.queue.cell p).id w.load.queue q
      → IsSound q
      → IsConserved (after_stage c w (finished w.load (ok tt, q)))
  dropped-IsConserved c p q known effect d s = record {
    sound = s;
    booked = d.booked;
    store_map = h.store_map;
    tasks = omega (arith, h.tasks, d.count);
    keys = ap length d.index_of_keys ∙ h.keys;
    settled = λ k id e.
        let before = h.settled k id (rw d.index_of_keys at e) in
        grind (
          arith,
          before,
          d.tasks id,
          effect,
          known.keyed,
          e,
          d.index_of_keys,
          h.booked.one_to_one k (w.load.queue.cell p).idempotency_key id,
        );
    produced_only = λ k e. rw d.index_of_keys (h.produced_only k e);
    numbered = λ id seq e. h.numbered id seq (rw d.index_of_keys at e);
    no_shortfall = h.no_shortfall;
    hands =
        InHand-at {s = w.load.store} {s' = w.load.store}
          (record { known = d.known; keys = λ j k. d.keys j; grows = λ k e. e }) w.consumers c
          looking h.hands tt;
  }

  ack-IsConserved :
      (c p : ℕ) (syncs : Bool) (o : Option ℕ)
      → Known w.load.queue p
      → landed (w.load.queue.cell p).idempotency_key w.load.store ≡ true
      → lookup (w.load.queue.cell p).id w.load.queue.index ≡ o
      → IsConserved
          (after_stage c w (finished w.load (ack syncs (w.load.queue.cell p).id w.load.queue)))
  ack-IsConserved c p syncs none known effect e =
      rw (ack_absent w.load.queue (w.load.queue.cell p).id syncs e)
        (moved c stopped _ (IsBooked-self w.load.queue h.booked) h.sound refl refl refl refl tt)
  ack-IsConserved c p false (some a) known effect e =
      rw (ack_lost w.load.queue (w.load.queue.cell p).id a e)
        (moved c stopped _ (IsBooked-self w.load.queue h.booked) h.sound refl refl refl refl tt)
  ack-IsConserved c p true (some a) known effect e =
      rw (ack_done w.load.queue (w.load.queue.cell p).id a e) (
        dropped-IsConserved c p _ known effect
          (ack-DropsTask w.load.queue h.booked h.sound.well (w.load.queue.cell p).id a e)
          (Keeps-IsSound h.sound
            (acknowledged-Keeps h.sound (acks true (w.load.queue.cell p).id refl))))

  pub finish-IsConserved :
      (c p : ℕ) (syncs : Bool)
      → w.consumers c ≡ effected p
      → IsConserved (after_stage c w (finish syncs p w.load))
  unfolding finish
  finish-IsConserved c p syncs e =
      let hand : InHand w.load.queue w.load.store (effected p) = rw e at (h.hands c) in
      ack-IsConserved c p syncs _ hand.0 hand.1 refl

  requeued : (q : Queue) → SameBooks w.load.queue q → IsSound q → IsConserved (with_queue q w)
  requeued q b s =
      IsConserved-same w (with_queue q w) h b s h.store_map (λ k e. e) h.produced_only refl refl
        refl refl λ c. InHand-carried (SameBooks-Carries w.load.store b) (w.consumers c) (h.hands c)

  pub sweep-IsConserved :
      (env : Env) (id : ℕ)
      → HasUnixNano env.now
      → IsConserved (
          with_queue
            (sweep_entry env id (lookup id w.load.queue.index_of_inflight) w.load.queue).1
            w)
  sweep-IsConserved env id clock =
      requeued _ (sweep_entry-SameBooks w.load.queue h.booked h.sound.well env id _)
        (Keeps-IsSound h.sound (acknowledged-Keeps h.sound (sweeps env id clock refl)))

  pub requeue-IsConserved :
      (syncs : Bool) (id : ℕ) → IsConserved (with_queue (requeue_dead syncs id w.load.queue).1 w)
  requeue-IsConserved syncs id =
      requeued _ (requeue_dead-SameBooks w.load.queue h.booked h.sound.well id syncs)
        (Keeps-IsSound h.sound (acknowledged-Keeps h.sound (requeues syncs id refl)))
