-- ===== src/Queue/Overlap/Promise.antt =====
-- What Enqueue promises of a key, however calls overlap (internal/queue/queue.go: Enqueue).
use gojobs.Prelude.{
  ℕ, ◌<◌, ◌≡◌, refl, sym, ◌∙◌, true, Option, some, none, List, arith, Bool-cases, inl, inr,
  bytes_eq, bytes_eq_self, bytes_eq_iff,
}
use gojobs.Prelude.Map.{bytes_key, lookup, put, lookup-put}
use gojobs.Task.{Task}
use gojobs.Queue.State.{Queue, empty_queue}
use gojobs.Queue.Methods.{has_key, existing, start_enqueue, make_visible, finish_enqueue}
use gojobs.Queue.Overlap.{
  answered, Crowd, with_caller, after_finish, Turn, starts, logs, finishes, calls, Turns, here,
  next, new_crowd,
}
use gojobs.Queue.Overlap.Calls.{OtherCall-SameTasks}
use gojobs.Queue.Overlap.OneTask.{
  Made, OneEach, IsOnce, Agrees-grown, Grows, moved, existing-lookup, existing-none, start_found,
  append_found, OneEach-same,
}

module _ (key : List ℕ) (t : Task) (q : Queue) (own : t.idempotency_key ≡ key)
    (absent : existing key q ≡ none) (h : OneEach q) where
  abbrev visible : Queue
  unfolding make_visible
  visible = (make_visible key t none q).1

  -- No task was made with the key yet.
  no_task : (p : ℕ) → p < q.next → has_key key ≡ true → (q.cell p).idempotency_key ≡ key → ⊥
  no_task p below k e =
      let led = h.keyed p below (rw e k) in
      let missing = existing-none key q absent k in let led' = rw e at led in cc

  visible-Made :
      (key' : List ℕ) (id : ℕ)
      → has_key key' ≡ true
      → lookup key' (put key t.id q.index_of_idem_keys) ≡ some id
      → Made visible key' id
  unfolding visible make_visible
  visible-Made key' id k e = elim (Bool-cases (bytes_eq key key')) [
    | inl same ↦ record {
      pointer = q.next;
      below = omega arith;
      own_id = grind (arith, lookup-put key key' t.id q.index_of_idem_keys, e, same);
      own_key = grind (arith, own, bytes_eq_iff key key', same);
    }
    | inr other ↦
        let old =
          h.made key' id k
            (grind (arith, lookup-put key key' t.id q.index_of_idem_keys, e, other)) in
        record {
          pointer = old.pointer;
          below = omega (arith, old.below);
          own_id = grind (arith, old.own_id, old.below);
          own_key = grind (arith, old.own_key, old.below);
        }
  ]

  visible-OneEach : OneEach visible
  unfolding visible make_visible
  visible-OneEach = record {
    one = λ p r lp lr k e. grind (arith, k, e, own, h.one p r, no_task p, no_task r);
    keyed = λ p lp k. grind (
      arith,
      k,
      own,
      h.keyed p,
      no_task p,
      lookup-put key (visible.cell p).idempotency_key t.id q.index_of_idem_keys,
      bytes_eq_iff key (visible.cell p).idempotency_key,
    );
    made = visible-Made;
  }

  visible-Grows : Grows q visible
  unfolding visible make_visible
  visible-Grows key' id k e = grind (
    arith,
    lookup-put key key' t.id q.index_of_idem_keys,
    bytes_eq_iff key key',
    existing-none key q absent,
    e,
    k,
  )

finish_found :
    (i : ℕ) (s : Crowd) (key : List ℕ) (t : Task) (o : Option ℕ)
    → existing key s.queue ≡ o
    → t.idempotency_key ≡ key
    → IsOnce s
    → IsOnce (with_caller i s (after_finish key (make_visible key t o s.queue)))
unfolding make_visible visible
finish_found i s key t (some old) e own h =
    moved i s (answered key old) s.queue h h.each (λ j x k f. f) (existing-lookup key s.queue old e)
finish_found i s key t none e own h =
    moved i s (answered key t.id) (visible key t s.queue own e h.each) h
      (visible-OneEach key t s.queue own e h.each) (visible-Grows key t s.queue own e h.each)
      (λ k. grind (arith, lookup-put key key t.id s.queue.index_of_idem_keys, bytes_eq_self key))

Turn-IsOnce : {s s' : Crowd} → IsOnce s → Turn s s' → IsOnce s'
unfolding start_enqueue finish_enqueue
Turn-IsOnce {s} h (starts i payload key id now begun e) =
    rw e (start_found i s payload key id now _ refl h)
Turn-IsOnce {s} h (logs i key t rec syncs stands e) =
    rw e (append_found i s key t rec syncs (rw stands at (h.agrees i)) h)
Turn-IsOnce {s} h (finishes i key t stands e) =
    rw e (finish_found i s key t _ refl (rw stands at (h.agrees i)) h)
Turn-IsOnce {s} h (calls q call e) =
    let same = OtherCall-SameTasks call in
    rw e (record {
      each = OneEach-same s.queue q same h.each;
      agrees = λ i.
          Agrees-grown s.queue q (s.callers i) (λ k id x f. rw same.index_of_keys f) (h.agrees i);
    })

pub Turns-IsOnce :
    (timeout max : ℕ) (s : Crowd) → Turns (new_crowd (empty_queue timeout max)) s → IsOnce s
unfolding empty_queue lookup
Turns-IsOnce timeout max s here = record {
  each = record {
    one = λ p r lp lr k e. absurd (omega arith);
    keyed = λ p lp k. absurd (omega arith);
    made = λ key id k e. cc;
  };
  agrees = λ i. tt;
}
Turns-IsOnce timeout max s (next r t) = Turn-IsOnce (Turns-IsOnce timeout max _ r) t

-- At most one task was ever made with a key; every call with the key that returned has the ID of this task.
pub record OneTask (s : Crowd) (key : List ℕ) : Type 0 where
  pub one :
      (p r : ℕ)
      → p < s.queue.next
      → r < s.queue.next
      → (s.queue.cell p).idempotency_key ≡ key
      → (s.queue.cell r).idempotency_key ≡ key
      → p ≡ r
  pub made : (i id : ℕ) → s.callers i ≡ answered key id → Made s.queue key id
  pub same_answer :
      (i j id id' : ℕ) → s.callers i ≡ answered key id → s.callers j ≡ answered key id' → id ≡ id'

-- On a queue that starts empty, any calls of Enqueue go on in any order, each in its two locked parts
-- with the append between, and other calls come between them, failing ones too. For a key that is
-- not empty at most one task was ever made, and every Enqueue with it that returned without an error
-- was told the ID of this task.
pub overlap-OneTask :
    (timeout max : ℕ) (s : Crowd) (key : List ℕ)
    → Turns (new_crowd (empty_queue timeout max)) s
    → has_key key ≡ true
    → OneTask s key
overlap-OneTask timeout max s key r k =
    let h = Turns-IsOnce timeout max s r in
    let told : (i id : ℕ)
        → s.callers i ≡ answered key id
        → lookup key s.queue.index_of_idem_keys ≡ some id =
      λ i id e. (rw e at (h.agrees i)) k in
    record {
      one = λ p p' lp lr e e'. h.each.one p p' lp lr (rw e k) (e ∙ sym e');
      made = λ i id e. h.each.made key id k (told i id e);
      same_answer = λ i j id id' e e'. grind (arith, told i id e, told j id' e');
    }
