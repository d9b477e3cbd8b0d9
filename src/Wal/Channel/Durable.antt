-- ===== src/Wal/Channel/Durable.antt =====
-- What the file holds of the requests that were answered (internal/queue/wal.go: Append, run).
use gojobs.Prelude.{
  ℕ, ◌≤◌, ◌≡◌, refl, ap, ◌∙◌, sym, Bool, Option, none, List, [], ◌∷◌, ◌++◌, append-nil,
  append_assoc,
}
use mathlib.Core.List.{map}
use gojobs.Prelude.Run.{Run, Error}
use gojobs.Wal.Replay.{frames, AllFit}
use gojobs.Wal.Cut.{frames-append}
use gojobs.Wal.Writer.{open_wal, Batch, WriteOutcome, requests, commit_batch}
use gojobs.Wal.Crash.{IsClean, Survives, group_commit, crash_survival}
use gojobs.Wal.Channel.{
  Request, Channel, open_channel, answer_all, settle, batch_of, Move, submits, closes, wakes,
  drains, drains_nil, commits, exits, Moves, here, next,
}
use gojobs.Wal.Channel.Answers.{answered, answered-append, answered-answer_all, send-sent}

abbrev pub records_of : List Request → List (List ℕ)
records_of rs = map (λ r. r.record_bytes) rs

records_of-append : (xs ys : List Request) → records_of (xs ++ ys) ≡ records_of xs ++ records_of ys
records_of-append [] ys = refl
records_of-append (x ∷ xs) ys = ap (λ l. x.record_bytes ∷ l) (records_of-append xs ys)

-- No caller was told of an error.
abbrev pub NoError : List (Request × Option Error) → Type 0
NoError [] = Unit
NoError ((r, o) ∷ rest) = (o ≡ none) × NoError rest

NoError-append :
    (xs ys : List (Request × Option Error)) → NoError (xs ++ ys) → NoError xs × NoError ys
NoError-append [] ys h = (tt, h)
NoError-append (x ∷ xs) ys h = let (a, b) = NoError-append xs ys h.1 in ((h.0, a), b)

abbrev Holds : List (List ℕ) → Channel → Type 0
Holds old c = NoError c.replied → IsClean (old ++ records_of (answered c.replied)) c.wal

settle-Holds :
    (old : List (List ℕ)) (first : Request) (rs : List Request) (writes : ℕ → WriteOutcome)
    (syncs : Bool) (c : Channel)
    → Holds old c
    → Holds old (settle first rs writes syncs c)
unfolding settle
settle-Holds old first rs writes syncs c h fine =
    let b = batch_of first rs writes syncs in
    let outcome = (commit_batch b c.wal).0 in
    let (before, now) = NoError-append c.replied (answer_all outcome (first ∷ rs)) fine in
    let clean = h before in
    let (bytes, synced, offset) = group_commit b c.wal now.0 in
    let acked = old ++ records_of (answered c.replied) in
    let all : records_of (answered (c.replied ++ answer_all outcome (first ∷ rs)))
        ≡ records_of (answered c.replied) ++ requests b =
      ap records_of (
        answered-append c.replied (answer_all outcome (first ∷ rs))
        ∙ ap (λ l. answered c.replied ++ l) (answered-answer_all outcome (first ∷ rs)))
      ∙ records_of-append (answered c.replied) (first ∷ rs) in
    record {
      holds =
          bytes
          ∙ ap (λ l. l ++ frames (requests b)) clean.holds
          ∙ sym (frames-append acked (requests b))
          ∙ ap frames (
              append_assoc old (records_of (answered c.replied)) (requests b)
              ∙ ap (λ l. old ++ l) (sym all));
      durable = synced;
    }

Move-Holds : {c c' : Channel} (old : List (List ℕ)) → Holds old c → Move c c' → Holds old c'
Move-Holds {c} old h (submits r room e) = let (opened, same) = send-sent r c _ e in rw (sym same) h
Move-Holds old h (closes opened e) = rw e h
Move-Holds old h (wakes r rest p w e) = rw e h
Move-Holds old h (drains first r drained rest p w e) = rw e h
Move-Holds old h (drains_nil first drained p w x e) = rw e h
Move-Holds {c} old h (commits first drained rs writes syncs p w opened d e) =
    rw e (settle-Holds old first rs writes syncs c h)
Move-Holds old h (exits p w x e) = rw e h

Moves-Holds :
    (old : List (List ℕ)) (c : Channel)
    → Moves (open_channel (open_wal (frames old))) c
    → Holds old c
Moves-Holds old c here =
    unfold open_channel open_wal in
    λ fine. record { holds = ap frames (sym (append-nil old)); durable = refl }
Moves-Holds old c (next r m) = Move-Holds old (Moves-Holds old _ r) m

-- A log of whole frames is opened, Append and the writer make any moves, and no caller was told of an
-- error. Then a crash comes in the middle of one more batch, and leaves a file that has at least what
-- an fsync covered. Replay applies the old records, every record whose Append was answered, in the
-- order of the answers, then a prefix of that batch, and all of it if its callers were told of no error.
pub Moves-Survives {ℓ} :
    {S : Type ℓ} (apply : S → List ℕ → Run S) (old : List (List ℕ)) (c : Channel) (b : Batch)
    (k : ℕ) (s : S)
    → Moves (open_channel (open_wal (frames old))) c
    → NoError c.replied
    → AllFit (old ++ records_of (answered c.replied))
    → AllFit (requests b)
    → (commit_batch b c.wal).1.synced ≤ k
    → Survives apply (old ++ records_of (answered c.replied)) b c.wal k s
Moves-Survives apply old c b k s r fine fits fits' floor =
    crash_survival apply (old ++ records_of (answered c.replied)) b c.wal k s fits fits'
      (Moves-Holds old c r fine) floor
