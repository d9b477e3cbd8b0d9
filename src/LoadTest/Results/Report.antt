-- ===== src/LoadTest/Results/Report.antt =====
-- What the record of a run and its report say (cmd/loadtest/results.go, output.go).
use gojobs.Prelude.{
  ℕ, zero, suc, ◌++◌, length, length-append, ◌+◌, ◌-◌, ◌≤◌, ◌≡◌, ◌↔◌, refl, Bool, true, false,
  Option, some, none, List, [], ◌∷◌, arith,
}
use gojobs.Prelude.Int.{ℤ, pos, minus}
use gojobs.Prelude.Run.{Run, ok, err, panic, out_of_fuel}
use gojobs.Prelude.Map.{bytes_key}
use gojobs.Prelude.Map.Size.{IsMap}
use gojobs.Queue.State.{Queue}
use gojobs.LoadTest.Store.{
  EffectStore, apply, apply-IsMap, apply-counts, distinct, deliveries, new_effect_store,
}
use gojobs.LoadTest.Workload.{
  Load, conclude, counted, taken, handed_back, finished, produce, take_task, handle, hand_back,
  finish,
}
use gojobs.LoadTest.World.{
  World, new_world, Turn, produces, takes, handles, finishes, sweeps, requeues, Turns, here, next,
}
use gojobs.LoadTest.Results.{
  GitCommand, RunMetrics, build_record, marks, ok_mark, repeated, section,
}
use gojobs.LoadTest.Settings.{Config, exit_code}
use gojobs.Queue.Methods.{Env, enqueue, dequeue, retry, ack}
use gojobs.LoadTest.Keys.{producer_key}

-- The report marks all three rows "ok" exactly when the program exits with 0.
pub marks-exit_code :
    (l : Load)
    → (marks (conclude l) ≡ ok_mark true ∷ ok_mark true ∷ ok_mark true ∷ [])
      ↔ (exit_code (conclude l) ≡ 0)
unfolding marks conclude ok_mark exit_code
marks-exit_code l = ground arith

length-repeated : (n : ℕ) → length (repeated n) ≡ n
length-repeated zero = refl
length-repeated (suc n) = omega (arith, length-repeated n)

-- A header line is 52 wide if its title leaves room for four more, and else just as wide as the title
-- with these four.
section-width :
    (title : List ℕ)
    → (length title ≤ 48 → length (section title) ≡ 52)
      × (48 ≤ length title → length (section title) ≡ length title + 4)
unfolding section
section-width title =
    let prefix = 9552 ∷ 9552 ∷ 32 ∷ title ++ 32 ∷ [] in
    let all = length-append prefix (repeated (52 - length prefix)) in
    let rest = length-repeated (52 - length prefix) in
    let own = length-append title (32 ∷ []) in
    (λ h. omega (arith, all, rest, own), λ h. omega (arith, all, rest, own))

-- A delivery comes to its effect, unless it is handed back before.
abbrev pub delivers : Bool → Bool → ℕ
delivers true false = 0
delivers true true = 1
delivers false crashes = 1

abbrev pub deliveries_of : {w w' : World} → Turn w w' → ℕ
deliveries_of (handles c p fails crashes env holds clock e) = delivers fails crashes
deliveries_of _ = 0

-- How many deliveries came to their effect in these turns.
abbrev pub all_deliveries : {w w' : World} → Turns w w' → ℕ
all_deliveries here = 0
all_deliveries (next r t) = all_deliveries r + deliveries_of t

-- No more effects than calls of `apply`, each of which is counted.
record IsCounted (calls : ℕ) (s : EffectStore) : Type 0 where
  mapped : IsMap s.applied
  bound : distinct s ≤ calls
  counted_all : deliveries s ≡ calls

apply-IsCounted :
    (key : List ℕ) (calls : ℕ) (s : EffectStore)
    → IsCounted calls s
    → IsCounted (calls + 1) (apply key s)
unfolding distinct deliveries
apply-IsCounted key calls s h =
    let (total, count) = apply-counts key s h.mapped in
    record {
      mapped = apply-IsMap key s h.mapped;
      bound = grind (arith, count, h.bound);
      counted_all = grind (arith, total, h.counted_all);
    }

same_calls : (calls : ℕ) (s : EffectStore) → IsCounted calls s → IsCounted (calls + 0) s
same_calls calls s h = record {
  mapped = h.mapped;
  bound = omega (arith, h.bound);
  counted_all = omega (arith, h.counted_all);
}

module _ (l : Load) where
  counted-store : (r : Run ℕ × Queue) → (counted l r).1.store ≡ l.store
  counted-store (ok id, q) = refl
  counted-store (err e, q) = refl
  counted-store (panic, q) = refl
  counted-store (out_of_fuel, q) = refl

  taken-store : (r : Run (Option ℕ) × Queue) → (taken l r).1.store ≡ l.store
  taken-store (ok none, q) = refl
  taken-store (ok (some p), q) = refl
  taken-store (err e, q) = refl
  taken-store (panic, q) = refl
  taken-store (out_of_fuel, q) = refl

  handed_back-store : (r : Run (Unit {0}) × Queue) → (handed_back l r).1.store ≡ l.store
  handed_back-store (ok x, q) = refl
  handed_back-store (err e, q) = refl
  handed_back-store (panic, q) = refl
  handed_back-store (out_of_fuel, q) = refl

  finished-store : (r : Run (Unit {0}) × Queue) → (finished l r).1.store ≡ l.store
  finished-store (ok x, q) = refl
  finished-store (err e, q) = refl
  finished-store (panic, q) = refl
  finished-store (out_of_fuel, q) = refl

  handle-IsCounted :
      (fails crashes : Bool) (env : Env) (p calls : ℕ)
      → IsCounted calls l.store
      → IsCounted (calls + delivers fails crashes) (handle fails crashes env p l).1.store
  unfolding handle hand_back
  handle-IsCounted true true env p calls h =
      apply-IsCounted (l.queue.cell p).idempotency_key calls l.store h
  handle-IsCounted true false env p calls h =
      rw (handed_back-store (retry env (l.queue.cell p).id l.queue)) (same_calls calls l.store h)
  handle-IsCounted false crashes env p calls h =
      apply-IsCounted (l.queue.cell p).idempotency_key calls l.store h

Turn-IsCounted :
    {w w' : World} (calls : ℕ)
    → IsCounted calls w.load.store
    → (t : Turn w w') → IsCounted (calls + deliveries_of t) w'.load.store
unfolding produce take_task finish
Turn-IsCounted {w} calls h (produces id syncs uuid now running fits fresh unused e) =
    rw
      (
        e,
        counted-store w.load
            (enqueue syncs (120 ∷ []) (producer_key id (w.producers id).seq) uuid now w.load.queue),
      )
      (same_calls calls w.load.store h)
Turn-IsCounted {w} calls h (takes c now idle e) =
    rw (e, taken-store w.load (dequeue now w.load.queue)) (same_calls calls w.load.store h)
Turn-IsCounted {w} calls h (handles c p fails crashes env holds clock e) =
    rw e (handle-IsCounted w.load fails crashes env p calls h)
Turn-IsCounted {w} calls h (finishes c p syncs holds e) =
    rw (e, finished-store w.load (ack syncs (w.load.queue.cell p).id w.load.queue))
      (same_calls calls w.load.store h)
Turn-IsCounted {w} calls h (sweeps env id clock e) = rw e (same_calls calls w.load.store h)
Turn-IsCounted {w} calls h (requeues syncs id e) = rw e (same_calls calls w.load.store h)

Turns-IsCounted :
    (timeout max : ℕ) (w : World) (r : Turns (new_world timeout max) w)
    → IsCounted (all_deliveries r) w.load.store
Turns-IsCounted timeout max w here =
    unfold new_effect_store distinct deliveries in
    record { mapped = tt; bound = omega arith; counted_all = refl }
Turns-IsCounted timeout max w (next r t) =
    Turn-IsCounted (all_deliveries r) (Turns-IsCounted timeout max _ r) t

module _ {F : Type 0} (show_duration : ℤ → List ℕ) (git : GitCommand → Option (List ℕ)) where
  -- After any turns on a new queue, the re-applications that the record of a run reports are never
  -- negative, and with the distinct effects they are as many as the deliveries in these turns that a
  -- consumer did not hand back before the effect.
  pub build_record-deduped :
      (timeout max : ℕ) (w : World) (timestamp : List ℕ) (cfg : Config F) (metrics : RunMetrics)
      (r : Turns (new_world timeout max) w)
      → let counters =
          (build_record show_duration git timestamp cfg (conclude w.load) metrics).counters in
        (n : ℕ) × (counters.deduped_reapplies ≡ pos n)
        × (counters.distinct_effects + n ≡ all_deliveries r)
  unfolding build_record conclude minus
  build_record-deduped timeout max w timestamp cfg metrics r =
      let h = Turns-IsCounted timeout max w r in
      (
        deliveries w.load.store - distinct w.load.store,
        ground (arith, h.bound, h.counted_all),
        omega (arith, h.bound, h.counted_all),
      )
