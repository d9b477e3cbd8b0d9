-- ===== src/Queue/Idempotency.antt =====
-- What an idempotency key promises (internal/queue/queue.go: Enqueue).
use gojobs.Prelude.{
  ℕ, ◌≡◌, refl, ap, sym, ◌∙◌, Bool, true, false, Option, some, none, List, [], ◌∷◌, arith,
  bytes_eq_self, bytes_eq_iff,
}
use gojobs.Prelude.Run.{ok, err, io_error}
use gojobs.Prelude.Map.{nat_eq, bytes_key, lookup, put, lookup-put}
use gojobs.Record.Payload.{Record, enqueue}
use gojobs.Queue.State.{Queue, go_on}
use gojobs.Queue.Methods
use gojobs.Queue.Methods.{has_key, existing, admission, append_enqueue, make_visible}
use gojobs.Record.RoundTrip.{Fits}
use gojobs.Queue.Recovery.Refines.{Admits}
use gojobs.Queue.Durability.Enqueue.{enqueue_fields, enqueue-Keeps}
use gojobs.Queue.Spec.{Durable, view, transition, add_entry}
use gojobs.Queue.Durability.{IsSound, Keeps, silent, logged, Keeps-IsSound}
use gojobs.Queue.Durability.Recovered.{Reach, Reach-IsSound, here, next, acknowledged-Keeps}

transition-keys :
    (d d' : Durable) (r : Record) (key : List ℕ) (id : ℕ)
    → has_key key ≡ true
    → transition d r ≡ some d'
    → d.keys key ≡ some id
    → d'.keys key ≡ some id
unfolding transition add_entry
transition-keys d d' (enqueue p) [] id h e k = cc
transition-keys d d' (enqueue p) (c ∷ key) id h e k =
    grind (arith, bytes_eq_iff p.idempotency_key (c ∷ key))
transition-keys d d' _ key id h e k = grind (arith, k)

Keeps-keys :
    {q q' : Queue} (key : List ℕ) (id : ℕ)
    → has_key key ≡ true
    → Keeps q q'
    → lookup key q.index_of_idem_keys ≡ some id
    → lookup key q'.index_of_idem_keys ≡ some id
unfolding view
Keeps-keys key id h (silent log max holds) k = ap (λ d. d.keys key) holds.holds ∙ k
Keeps-keys {q} key id h (logged r b d eb fits admits step log max holds allowed) k =
    ap (λ d. d.keys key) holds.holds ∙ transition-keys (view q) d r key id h step k

-- A key stays with its task, whatever is called.
pub Reach-keys :
    {q q' : Queue} (key : List ℕ) (id : ℕ)
    → has_key key ≡ true
    → IsSound q
    → Reach q q'
    → lookup key q.index_of_idem_keys ≡ some id
    → lookup key q'.index_of_idem_keys ≡ some id
Reach-keys key id h s here k = k
Reach-keys key id h s (next reach step) k =
    Keeps-keys key id h (acknowledged-Keeps (Reach-IsSound s reach) step)
      (Reach-keys key id h s reach k)

module _ (payload key : List ℕ) (id now : ℕ) (q : Queue) where
  pub enqueue_known :
      (syncs : Bool) (old : ℕ)
      → existing key q ≡ some old
      → Methods.enqueue syncs payload key id now q ≡ (ok old, q)
  unfolding Methods.enqueue
  enqueue_known syncs old e = rw (e, admission, go_on, append_enqueue) refl

  pub enqueue_lost :
      existing key q ≡ none → Methods.enqueue false payload key id now q ≡ (err io_error, q)
  unfolding Methods.enqueue
  enqueue_lost e = rw (e, admission, go_on, append_enqueue) refl

  pub enqueue_new : existing key q ≡ none → (Methods.enqueue true payload key id now q).0 ≡ ok id
  unfolding Methods.enqueue
  enqueue_new e = rw (e, admission, go_on, e, make_visible) refl

  enqueue_keys :
      existing key q ≡ none
      → (Methods.enqueue true payload key id now q).1.index_of_idem_keys
        ≡ put key id q.index_of_idem_keys
  unfolding Methods.enqueue
  enqueue_keys e = rw (e, admission, go_on, e, make_visible) refl

  existing_key :
      has_key key ≡ true → (o : Option ℕ) → lookup key q.index_of_idem_keys ≡ o → existing key q ≡ o
  unfolding existing
  existing_key h o e = rw (h, e) refl

  -- An Enqueue that returns has left its key with the ID that it returned.
  enqueue_keyed :
      (syncs : Bool) (o : Option ℕ)
      → existing key q ≡ o
      → has_key key ≡ true
      → (first : ℕ) → (Methods.enqueue syncs payload key id now q).0 ≡ ok first
      → lookup key (Methods.enqueue syncs payload key id now q).1.index_of_idem_keys ≡ some first
  enqueue_keyed syncs (some old) k h first e =
      let known = enqueue_known syncs old k in
      let same : ok old ≡ ok first = sym (ap (λ r. r.0) known) ∙ e in
      let same' : old ≡ first = cc in
      let held : lookup key q.index_of_idem_keys ≡ some old =
        unfold existing in ground (arith, k, h) in
      rw known (held ∙ ap some same')
  enqueue_keyed false none k h first e = let lost = enqueue_lost k in cc
  enqueue_keyed true none k h first e =
      let same : ok id ≡ ok first = sym (enqueue_new k) ∙ e in
      let same' : id ≡ first = cc in
      rw (enqueue_keys k)
        (grind (arith, lookup-put key key id q.index_of_idem_keys, bytes_eq_self key))

-- On a sound queue an Enqueue with a key that is not empty, and with an unused ID and fields that fit
-- the log, returned an ID. After any calls, one at a time, failing ones and sweeps among them, an
-- Enqueue with this key returns the same ID and changes nothing, whatever else is different.
pub enqueue-repeats :
    (syncs : Bool) (payload key : List ℕ) (id now : ℕ) (q q' : Queue) (first : ℕ) (syncs' : Bool)
    (payload' : List ℕ) (id' now' : ℕ)
    → has_key key ≡ true
    → IsSound q
    → Fits (enqueue (enqueue_fields payload key id now))
    → Admits (view q) (enqueue (enqueue_fields payload key id now))
    → (Methods.enqueue syncs payload key id now q).0 ≡ ok first
    → Reach (Methods.enqueue syncs payload key id now q).1 q'
    → Methods.enqueue syncs' payload' key id' now' q' ≡ (ok first, q')
enqueue-repeats syncs payload key id now q q' first syncs' payload' id' now' h s fits fresh e
      reach =
    let sound = Keeps-IsSound s (enqueue-Keeps q s payload key id now fits fresh syncs) in
    let kept = enqueue_keyed payload key id now q syncs _ refl h first e in
    enqueue_known payload' key id' now' q' syncs' first
      (existing_key payload' key id' now' q' h _ (Reach-keys key first h sound reach kept))
