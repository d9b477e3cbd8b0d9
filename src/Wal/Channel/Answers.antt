-- ===== src/Wal/Channel/Answers.antt =====
-- Every request is answered once, in order (internal/queue/wal.go: Append, run).
use gojobs.Prelude.{
  ℕ, ◌<◌, ◌≤◌, ◌≡◌, refl, ap, ◌∙◌, sym, Bool, true, false, Option, some, none, List, [], ◌∷◌, ◌++◌,
  append-nil, append_assoc, length, length-append, if◌then◌else◌, arith,
}
use gojobs.Prelude.Run.{Error, ok, panic}
use gojobs.Wal.Writer.{Wal, WriteOutcome, commit_batch}
use gojobs.Wal.Channel.{
  capacity, Request, Phase, ranging, draining, exited, Channel, open_channel, send, dereferenced,
  and_then, answer_all, settle, batch_of, Move, submits, closes, wakes, drains, drains_nil, commits,
  exits, Moves, here, next,
}

-- The requests among what was drained.
abbrev pub requests_of : List (Option Request) → List Request
requests_of [] = []
requests_of (none ∷ rs) = requests_of rs
requests_of (some r ∷ rs) = r ∷ requests_of rs

abbrev pub answered : List (Request × Option Error) → List Request
answered [] = []
answered ((r, o) ∷ rest) = r ∷ answered rest

abbrev pub in_batch : Phase → List Request
in_batch ranging = []
in_batch (draining first drained) = first ∷ requests_of drained
in_batch exited = []

pub record InOrder (c : Channel) : Type 0 where
  pub order : answered c.replied ++ (in_batch c.phase ++ c.waiting) ≡ c.submitted
  pub room : length c.waiting ≤ capacity
  pub finished : c.phase ≡ exited → (c.waiting ≡ []) × (c.closed ≡ true)

requests_of-append :
    (xs ys : List (Option Request)) → requests_of (xs ++ ys) ≡ requests_of xs ++ requests_of ys
requests_of-append [] ys = refl
requests_of-append (none ∷ xs) ys = requests_of-append xs ys
requests_of-append (some r ∷ xs) ys = ap (λ l. r ∷ l) (requests_of-append xs ys)

pub answered-append :
    (xs ys : List (Request × Option Error)) → answered (xs ++ ys) ≡ answered xs ++ answered ys
answered-append [] ys = refl
answered-append (x ∷ xs) ys = ap (λ l. x.0 ∷ l) (answered-append xs ys)

pub answered-answer_all : (o : Option Error) (rs : List Request) → answered (answer_all o rs) ≡ rs
answered-answer_all o [] = refl
answered-answer_all o (r ∷ rs) = ap (λ l. r ∷ l) (answered-answer_all o rs)

and_then-some :
    (r : Request) (o : Option (List Request)) (rs : List Request)
    → and_then r o ≡ some rs
    → (rest : List Request) × (o ≡ some rest) × (r ∷ rest ≡ rs)
and_then-some r none rs e = cc
and_then-some r (some rest) rs e = (rest, refl, cc)

dereferenced-requests :
    (xs : List (Option Request)) (rs : List Request)
    → dereferenced xs ≡ some rs
    → requests_of xs ≡ rs
dereferenced-requests [] rs e = cc
dereferenced-requests (none ∷ xs) rs e = cc
dereferenced-requests (some r ∷ xs) rs e =
    let (rest, f, g) = and_then-some r (dereferenced xs) rs e in
    ap (λ l. r ∷ l) (dereferenced-requests xs rest f) ∙ g

InOrder-open : (w : Wal) → InOrder (open_channel w)
unfolding open_channel
InOrder-open w = record { order = refl; room = omega arith; finished = λ e. cc }

abbrev pub sent : Request → Channel → Channel
sent r c = record c { waiting = c.waiting ++ r ∷ []; submitted = c.submitted ++ r ∷ [] }

pub send-sent :
    (r : Request) (c c' : Channel) → send r c ≡ ok c' → (c.closed ≡ false) × (sent r c ≡ c')
unfolding send
send-sent r c c' e = by_closed c.closed refl e
  where
    by_closed :
        (b : Bool)
        → c.closed ≡ b
        → (if b then panic else ok (sent r c)) ≡ ok c'
        → (c.closed ≡ false) × (sent r c ≡ c')
    by_closed true p x = let fails : panic ≡ ok c' = x in cc
    by_closed false p x = let same : ok (sent r c) ≡ ok c' = x in (p, cc)

sent-InOrder :
    (r : Request) (c : Channel)
    → c.closed ≡ false
    → length c.waiting < capacity
    → InOrder c
    → InOrder (sent r c)
sent-InOrder r c opened room h = record {
  order =
      ap (λ l. answered c.replied ++ l) (sym (append_assoc (in_batch c.phase) c.waiting (r ∷ [])))
      ∙ sym (append_assoc (answered c.replied) (in_batch c.phase ++ c.waiting) (r ∷ []))
      ∙ ap (λ l. l ++ r ∷ []) h.order;
  room = omega (arith, room, length-append c.waiting (r ∷ []));
  finished = λ e. let closed = (h.finished e).1 in cc;
}

settle-InOrder :
    (first : Request) (drained : List (Option Request)) (rs : List Request)
    (writes : ℕ → WriteOutcome) (syncs : Bool) (c : Channel)
    → c.phase ≡ draining first drained
    → c.waiting ≡ []
    → dereferenced drained ≡ some rs
    → InOrder c
    → InOrder (settle first rs writes syncs c)
unfolding settle
settle-InOrder first drained rs writes syncs c p w d h =
    let outcome = (commit_batch (batch_of first rs writes syncs) c.wal).0 in
    record {
      order =
          ap (λ l. answered (c.replied ++ answer_all outcome (first ∷ rs)) ++ l) w
          ∙ append-nil (answered (c.replied ++ answer_all outcome (first ∷ rs)))
          ∙ answered-append c.replied (answer_all outcome (first ∷ rs))
          ∙ ap (λ l. answered c.replied ++ l)
              (answered-answer_all outcome (first ∷ rs)
                ∙ ap (λ l. first ∷ l)
                    (sym (dereferenced-requests drained rs d)
                      ∙ sym (append-nil (requests_of drained))))
          ∙ rw (p, w) at h.order;
      room = h.room;
      finished = λ e. cc;
    }

Move-InOrder : {c c' : Channel} → InOrder c → Move c c' → InOrder c'
Move-InOrder {c} h (submits r room e) =
    let (opened, same) = send-sent r c _ e in rw (sym same) (sent-InOrder r c opened room h)
Move-InOrder h (closes opened e) =
    rw e (record { order = h.order; room = h.room; finished = λ x. ((h.finished x).0, refl) })
Move-InOrder h (wakes r rest p w e) = rw e (record {
  order = rw (p, w) at h.order;
  room = omega (arith, h.room, ap length w);
  finished = λ x. cc;
})
Move-InOrder {c} h (drains first r drained rest p w e) = rw e (record {
  order =
      ap (λ l. answered c.replied ++ first ∷ l)
        (ap (λ l. l ++ rest) (requests_of-append drained (some r ∷ []))
          ∙ append_assoc (requests_of drained) (r ∷ []) rest)
      ∙ rw (p, w) at h.order;
  room = omega (arith, h.room, ap length w);
  finished = λ x. cc;
})
Move-InOrder {c} h (drains_nil first drained p w x e) = rw e (record {
  order =
      ap (λ l. answered c.replied ++ first ∷ (l ++ c.waiting))
        (requests_of-append drained (none ∷ []) ∙ append-nil (requests_of drained))
      ∙ rw p at h.order;
  room = h.room;
  finished = λ y. cc;
})
Move-InOrder {c} h (commits first drained rs writes syncs p w opened d e) =
    rw e (settle-InOrder first drained rs writes syncs c p w d h)
Move-InOrder h (exits p w x e) =
    rw e (record { order = rw p at h.order; room = h.room; finished = λ y. (w, x) })

-- From a channel that was just opened, by any moves: what was answered, then the batch in hand, then
-- what waits are the requests that were submitted, each once and in order; no more wait than the
-- channel has room for; and when the writer has returned, nothing waits.
pub Moves-InOrder : (w : Wal) (c : Channel) → Moves (open_channel w) c → InOrder c
Moves-InOrder w c here = InOrder-open w
Moves-InOrder w c (next r m) = Move-InOrder (Moves-InOrder w _ r) m
