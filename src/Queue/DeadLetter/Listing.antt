-- ===== src/Queue/DeadLetter/Listing.antt =====
-- What ListDeadTasks returns (internal/queue/queue.go: ListDeadTasks, DLQLen).
use gojobs.Prelude.{
  ℕ, ◌+◌, ◌≤◌, ◌≡◌, refl, ap, sym, ◌∙◌, Option, some, none, List, [], ◌∷◌, length, arith,
  Bool-cases, inl, inr, ◌⊎◌, ◌==◌,
}
use gojobs.Prelude.Run.{ok}
use gojobs.Prelude.Map.{Map, nat_eq, lookup}
use gojobs.Prelude.Map.Size.{IsMap}
use gojobs.Clock.{after}
use gojobs.Task.{Task}
use gojobs.Queue.State.{Queue, go_on}
use gojobs.Queue.DeadLetter.{insert_dead, sort_dead, copies, list_dead_tasks, dead_task, dlq_len}

-- No task failed later than the one before it.
abbrev AtMost : ℕ → List Task → Type 0
AtMost time [] = Unit
AtMost time (t ∷ ts) = t.failed_at ≤ time

abbrev pub IsLatestFirst : List Task → Type 0
IsLatestFirst [] = Unit
IsLatestFirst (t ∷ ts) = AtMost t.failed_at ts × IsLatestFirst ts

insert_dead-AtMost :
    (time : ℕ) (t : Task) (ts : List Task)
    → t.failed_at ≤ time
    → AtMost time ts
    → AtMost time (insert_dead t ts)
unfolding insert_dead
insert_dead-AtMost time t [] h k = h
insert_dead-AtMost time t (u ∷ us) h k = elim (Bool-cases (after u.failed_at t.failed_at)) [
  | inl e ↦ rw e k
  | inr e ↦ rw e h
]

insert_dead-IsLatestFirst :
    (t : Task) (ts : List Task) → IsLatestFirst ts → IsLatestFirst (insert_dead t ts)
unfolding insert_dead
insert_dead-IsLatestFirst t [] h = (tt, tt)
insert_dead-IsLatestFirst t (u ∷ us) h = elim (Bool-cases (after u.failed_at t.failed_at)) [
  | inl e ↦
      rw e
        (insert_dead-AtMost u.failed_at t us (ground arith) h.0, insert_dead-IsLatestFirst t us h.1)
  | inr e ↦ rw e (ground arith, h)
]

sort_dead-IsLatestFirst : (ts : List Task) → IsLatestFirst (sort_dead ts)
unfolding sort_dead
sort_dead-IsLatestFirst [] = tt
sort_dead-IsLatestFirst (t ∷ ts) =
    insert_dead-IsLatestFirst t (sort_dead ts) (sort_dead-IsLatestFirst ts)

-- The task stands in the list.
abbrev pub IsIn : Task → List Task → Type 0
IsIn t [] = ⊥
IsIn t (u ∷ us) = (t ≡ u) ⊎ IsIn t us

insert_dead-IsIn : (s t : Task) (ts : List Task) → IsIn s (t ∷ ts) → IsIn s (insert_dead t ts)
unfolding insert_dead
insert_dead-IsIn s t [] h = h
insert_dead-IsIn s t (u ∷ us) h = elim (Bool-cases (after u.failed_at t.failed_at)) [
  | inl e ↦ rw e (later (insert_dead-IsIn s t us) h)
  | inr e ↦ rw e h
]
  where
    later :
        (IsIn s (t ∷ us) → IsIn s (insert_dead t us))
        → IsIn s (t ∷ u ∷ us)
        → IsIn s (u ∷ insert_dead t us)
    later below (inl x) = inr (below (inl x))
    later below (inr (inl x)) = inl x
    later below (inr (inr x)) = inr (below (inr x))

IsIn-insert_dead : (s t : Task) (ts : List Task) → IsIn s (insert_dead t ts) → IsIn s (t ∷ ts)
unfolding insert_dead
IsIn-insert_dead s t [] h = h
IsIn-insert_dead s t (u ∷ us) h = elim (Bool-cases (after u.failed_at t.failed_at)) [
  | inl e ↦ earlier (IsIn-insert_dead s t us) (rw e at h)
  | inr e ↦ rw e at h
]
  where
    last : IsIn s (t ∷ us) → IsIn s (t ∷ u ∷ us)
    last (inl x) = inl x
    last (inr x) = inr (inr x)

    earlier :
        (IsIn s (insert_dead t us) → IsIn s (t ∷ us))
        → IsIn s (u ∷ insert_dead t us)
        → IsIn s (t ∷ u ∷ us)
    earlier below (inl x) = inr (inl x)
    earlier below (inr x) = last (below x)

sort_dead-IsIn : (s : Task) (ts : List Task) → IsIn s ts → IsIn s (sort_dead ts)
unfolding sort_dead
sort_dead-IsIn s [] h = h
sort_dead-IsIn s (t ∷ ts) (inl e) = insert_dead-IsIn s t (sort_dead ts) (inl e)
sort_dead-IsIn s (t ∷ ts) (inr h) =
    insert_dead-IsIn s t (sort_dead ts) (inr (sort_dead-IsIn s ts h))

IsIn-sort_dead : (s : Task) (ts : List Task) → IsIn s (sort_dead ts) → IsIn s ts
unfolding sort_dead
IsIn-sort_dead s [] h = h
IsIn-sort_dead s (t ∷ ts) h = either (IsIn-sort_dead s ts) (IsIn-insert_dead s t (sort_dead ts) h)
  where
    either : (IsIn s (sort_dead ts) → IsIn s ts) → IsIn s (t ∷ sort_dead ts) → IsIn s (t ∷ ts)
    either below (inl e) = inl e
    either below (inr x) = inr (below x)

insert_dead-length : (t : Task) (ts : List Task) → length (insert_dead t ts) ≡ length ts + 1
unfolding insert_dead
insert_dead-length t [] = refl
insert_dead-length t (u ∷ us) = ground (arith, insert_dead-length t us)

sort_dead-length : (ts : List Task) → length (sort_dead ts) ≡ length ts
unfolding sort_dead
sort_dead-length [] = refl
sort_dead-length (t ∷ ts) = omega (arith, insert_dead-length t (sort_dead ts), sort_dead-length ts)

module _ (cell : ℕ → Task) where
  copies-length : (m : Map ℕ ℕ) → length (copies cell m) ≡ length m
  unfolding copies
  copies-length [] = refl
  copies-length ((id, p) ∷ m) = omega (arith, copies-length m)

  copies-IsIn : (id p : ℕ) (m : Map ℕ ℕ) → lookup id m ≡ some p → IsIn (cell p) (copies cell m)
  unfolding copies lookup
  copies-IsIn id p [] e = cc
  copies-IsIn id p ((j, r) ∷ m) e = elim (Bool-cases (j == id)) [
    | inl x ↦ let same : some r ≡ some p = rw x at e in inl (grind (arith, same))
    | inr x ↦ inr (copies-IsIn id p m (rw x at e))
  ]

  IsIn-copies :
      (t : Task) (m : Map ℕ ℕ)
      → IsMap m
      → IsIn t (copies cell m)
      → (id : ℕ) × ((p : ℕ) × ((lookup id m ≡ some p) × (t ≡ cell p)))
  unfolding copies lookup
  IsIn-copies t [] h x = absurd x
  IsIn-copies t ((j, r) ∷ m) h (inl e) = (j, (r, (ground arith, e)))
  IsIn-copies t ((j, r) ∷ m) h (inr x) =
      let (id, (p, (found, e))) = IsIn-copies t m h.1 x in (id, (p, (grind (arith, found, h.0), e)))

-- The list is the tasks that DeadTask finds, as it returns them.
pub record Lists (q : Queue) (listed : List Task) : Type 0 where
  pub latest_first : IsLatestFirst listed
  pub count : length listed ≡ dlq_len q
  pub complete : (id : ℕ) (t : Task) → (dead_task id q).0 ≡ ok t → IsIn t listed
  pub only : (t : Task) → IsIn t listed → (id : ℕ) × ((dead_task id q).0 ≡ ok t)

module _ (q : Queue) where
  dead_task-found :
      (id : ℕ) (t : Task) (o : Option ℕ)
      → lookup id q.dlq ≡ o
      → (dead_task id q).0 ≡ ok t
      → (p : ℕ) × ((lookup id q.dlq ≡ some p) × (q.cell p ≡ t))
  unfolding dead_task
  dead_task-found id t none e h = let lost = rw (e, go_on) at h in cc
  dead_task-found id t (some p) e h = (p, (e, let found = rw (e, go_on) at h in cc))

  pub dead_task-lookup : (id p : ℕ) → lookup id q.dlq ≡ some p → (dead_task id q).0 ≡ ok (q.cell p)
  unfolding dead_task
  dead_task-lookup id p e = rw (e, go_on) refl

-- Where no key of the dead-letter map occurs twice, ListDeadTasks returns every task that DeadTask finds,
-- as it returns it, and nothing else, as many as DLQLen says, with the latest failure first.
pub list_dead_tasks-Lists : (q : Queue) → IsMap q.dlq → Lists q (list_dead_tasks q)
unfolding list_dead_tasks dlq_len
list_dead_tasks-Lists q h =
    let found = copies q.cell q.dlq in
    record {
      latest_first = sort_dead-IsLatestFirst found;
      count = sort_dead-length found ∙ copies-length q.cell q.dlq;
      complete = λ id t e.
          let (p, (at_id, same)) = dead_task-found q id t _ refl e in
          sort_dead-IsIn t found (rw same at (copies-IsIn q.cell id p q.dlq at_id));
      only = λ t x.
          let (id, (p, (at_id, same))) = IsIn-copies q.cell t q.dlq h (IsIn-sort_dead t found x) in
          (id, dead_task-lookup q id p at_id ∙ ap ok (sym same));
    }
