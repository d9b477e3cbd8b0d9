-- ===== src/Queue/Overlap/OneTask.antt =====
-- One task for each key, however calls of Enqueue overlap (internal/queue/queue.go: Enqueue).
use gojobs.Prelude.{
  ℕ, ◌<◌, ◌≡◌, refl, ◌∙◌, Bool, true, false, Option, some, none, List, arith, Bool-cases, inl, inr,
  ◌==◌,
}
use gojobs.Prelude.Map.{bytes_key, lookup}
use gojobs.Task.{Task}
use gojobs.Queue.State.{Queue, append}
use gojobs.Queue.Methods.{has_key, existing, admission}
use gojobs.Queue.Overlap.{
  Caller, idle, waiting, durable, answered, failed, Crowd, with_caller, after_start, after_append,
}
use gojobs.Queue.Overlap.Calls.{SameTasks}

-- The task of a key that is not empty, made at a pointer below `next`.
pub record Made (q : Queue) (key : List ℕ) (id : ℕ) : Type 0 where
  pub pointer : ℕ
  pub below : pointer < q.next
  pub own_id : (q.cell pointer).id ≡ id
  pub own_key : (q.cell pointer).idempotency_key ≡ key

-- Each key that is not empty leads to the one task that was made with it.
pub record OneEach (q : Queue) : Type 0 where
  pub one :
      (p r : ℕ)
      → p < q.next
      → r < q.next
      → has_key (q.cell p).idempotency_key ≡ true
      → (q.cell p).idempotency_key ≡ (q.cell r).idempotency_key
      → p ≡ r
  pub keyed :
      (p : ℕ)
      → p < q.next
      → has_key (q.cell p).idempotency_key ≡ true
      → lookup (q.cell p).idempotency_key q.index_of_idem_keys ≡ some (q.cell p).id
  pub made :
      (key : List ℕ) (id : ℕ)
      → has_key key ≡ true
      → lookup key q.index_of_idem_keys ≡ some id
      → Made q key id

-- A call carries the task of its key; one that was answered was told the ID of the key.
abbrev pub Agrees : Queue → Caller → Type 0
Agrees q (waiting key t rec) = t.idempotency_key ≡ key
Agrees q (durable key t) = t.idempotency_key ≡ key
Agrees q (answered key id) = has_key key ≡ true → lookup key q.index_of_idem_keys ≡ some id
Agrees q _ = Unit

-- The keys that led to a task still lead to it.
abbrev pub Grows : Queue → Queue → Type 0
Grows q q' =
    (key : List ℕ) (id : ℕ)
    → has_key key ≡ true
    → lookup key q.index_of_idem_keys ≡ some id
    → lookup key q'.index_of_idem_keys ≡ some id

pub Agrees-grown : (q q' : Queue) (c : Caller) → Grows q q' → Agrees q c → Agrees q' c
Agrees-grown q q' idle grows h = tt
Agrees-grown q q' (waiting key t rec) grows h = h
Agrees-grown q q' (durable key t) grows h = h
Agrees-grown q q' (answered key id) grows h = λ k. grows key id k (h k)
Agrees-grown q q' failed grows h = tt

Made-same : (q q' : Queue) (key : List ℕ) (id : ℕ) → SameTasks q q' → Made q key id → Made q' key id
Made-same q q' key id s m = record {
  pointer = m.pointer;
  below = rw s.next m.below;
  own_id = s.ids m.pointer ∙ m.own_id;
  own_key = s.keys m.pointer ∙ m.own_key;
}

pub OneEach-same : (q q' : Queue) → SameTasks q q' → OneEach q → OneEach q'
OneEach-same q q' s h = record {
  one = λ p r lp lr k e.
      h.one p r (rw s.next at lp) (rw s.next at lr) (rw (s.keys p) at k)
        (grind (arith, s.keys p, s.keys r, e));
  keyed = λ p lp k.
      rw (s.keys p, s.ids p, s.index_of_keys) (h.keyed p (rw s.next at lp) (rw (s.keys p) at k));
  made = λ key id k e. Made-same q q' key id s (h.made key id k (rw s.index_of_keys at e));
}

pub record IsOnce (s : Crowd) : Type 0 where
  pub each : OneEach s.queue
  pub agrees : (i : ℕ) → Agrees s.queue (s.callers i)

-- One caller moves on, and the queue with it.
pub moved :
    (i : ℕ) (s : Crowd) (caller : Caller) (q : Queue)
    → IsOnce s
    → OneEach q
    → Grows s.queue q
    → Agrees q caller
    → IsOnce (with_caller i s (caller, q))
moved i s caller q h each grows own = record {
  each = each;
  agrees = λ j. elim (Bool-cases (i == j)) [
    | inl e ↦ rw e own
    | inr e ↦ rw e (Agrees-grown s.queue q (s.callers j) grows (h.agrees j))
  ];
}

pub existing-lookup :
    (key : List ℕ) (q : Queue) (old : ℕ)
    → existing key q ≡ some old
    → has_key key ≡ true
    → lookup key q.index_of_idem_keys ≡ some old
unfolding existing
existing-lookup key q old e k = rw k at e

pub existing-none :
    (key : List ℕ) (q : Queue)
    → existing key q ≡ none
    → has_key key ≡ true
    → lookup key q.index_of_idem_keys ≡ none
unfolding existing
existing-none key q e k = rw k at e

pub start_found :
    (i : ℕ) (s : Crowd) (payload key : List ℕ) (id now : ℕ) (o : Option ℕ)
    → existing key s.queue ≡ o
    → IsOnce s
    → IsOnce (with_caller i s (after_start key (admission payload key id now o s.queue)))
unfolding admission
start_found i s payload key id now (some old) e h =
    moved i s (answered key old) s.queue h h.each (λ j x k f. f) (existing-lookup key s.queue old e)
start_found i s payload key id now none e h = moved i s _ s.queue h h.each (λ j x k f. f) refl

pub append_found :
    (i : ℕ) (s : Crowd) (key : List ℕ) (t : Task) (rec : List ℕ) (syncs : Bool)
    → t.idempotency_key ≡ key
    → IsOnce s
    → IsOnce (with_caller i s (after_append key t (append syncs rec s.queue)))
unfolding append
append_found i s key t rec true own h =
    let q = (append true rec s.queue).1 in
    moved i s (durable key t) q h
      (OneEach-same s.queue q
        (record { next = refl; ids = λ p. refl; keys = λ p. refl; index_of_keys = refl }) h.each)
      (λ j x k f. f) own
append_found i s key t rec false own h = moved i s failed s.queue h h.each (λ j x k f. f) tt
