-- ===== src/Wal/Channel.antt =====
-- The channel between Append and the writer goroutine of internal/queue/wal.go (Append, run, Close).
pub mod Answers
pub mod Closing
pub mod Durable
pub mod Progress
use gojobs.Prelude.{
  ℕ, ◌+◌, ◌<◌, ◌≡◌, Bool, true, false, Option, some, none, List, [], ◌∷◌, ◌++◌, length, ltb,
  if◌then◌else◌,
}
use mathlib.Core.List.{map}
use gojobs.Prelude.Run.{Run, Error, ok, panic}
use gojobs.Wal.Writer.{Wal, Batch, WriteOutcome, commit_batch}

-- walRequest: the number stands for its reply channel.
pub record Request : Type 0 where
  pub number : ℕ
  pub record_bytes : List ℕ

-- Where the writer stands: at the range, in the drain loop with a batch, or returned. A receive from
-- a closed channel that is empty gives nil.
pub data Phase : Type 0 where
  ranging : Phase
  draining : Request → List (Option Request) → Phase
  exited : Phase

pub record Channel : Type 0 where
  pub waiting : List Request
  pub closed : Bool
  pub phase : Phase
  pub wal : Wal
  -- What Append has sent, and what was sent back, each in order.
  pub submitted : List Request
  pub replied : List (Request × Option Error)

abbrev pub capacity : ℕ
capacity = 1024

unfoldable pub open_channel : Wal → Channel
open_channel w = record {
  waiting = [];
  closed = false;
  phase = ranging;
  wal = w;
  submitted = [];
  replied = [];
}

-- w.requests <- req, where there is room for it: on a closed channel it panics.
unfoldable pub send : Request → Channel → Run Channel
send r c =
    if c.closed
    then panic
    else ok (record c { waiting = c.waiting ++ r ∷ []; submitted = c.submitted ++ r ∷ [] })

abbrev pub and_then : Request → Option (List Request) → Option (List Request)
and_then r none = none
and_then r (some rs) = some (r ∷ rs)

-- req.record of each request; nil has none.
abbrev pub dereferenced : List (Option Request) → Option (List Request)
dereferenced [] = some []
dereferenced (none ∷ rs) = none
dereferenced (some r ∷ rs) = and_then r (dereferenced rs)

-- Every caller of the batch is sent the same outcome.
abbrev pub answer_all : Option Error → List Request → List (Request × Option Error)
answer_all outcome [] = []
answer_all outcome (r ∷ rs) = (r, outcome) ∷ answer_all outcome rs

abbrev pub batch_of : Request → List Request → (ℕ → WriteOutcome) → Bool → Batch
batch_of r rs writes syncs = record {
  first = r.record_bytes;
  drained = map (λ r. r.record_bytes) rs;
  writes = writes;
  syncs = syncs;
}

-- The writes, the fsync and the replies of one batch.
unfoldable pub settle : Request → List Request → (ℕ → WriteOutcome) → Bool → Channel → Channel
unfolding commit_batch
settle r rs writes syncs c =
    let (outcome, w) = commit_batch (batch_of r rs writes syncs) c.wal in
    record c { phase = ranging; wal = w; replied = c.replied ++ answer_all outcome (r ∷ rs) }

-- One move of a producer, of Close or of the writer. The default case of the select is taken only
-- where the receive is not ready: where the channel is empty and open.
pub data Move (c c' : Channel) : Type 0 where
  submits : (r : Request) → length c.waiting < capacity → send r c ≡ ok c' → Move c c'
  closes : c.closed ≡ false → c' ≡ record c { closed = true } → Move c c'
  wakes :
      (r : Request) (rest : List Request)
      → c.phase ≡ ranging
      → c.waiting ≡ r ∷ rest
      → c' ≡ record c { waiting = rest; phase = draining r [] }
      → Move c c'
  drains :
      (first r : Request) (drained : List (Option Request)) (rest : List Request)
      → c.phase ≡ draining first drained
      → c.waiting ≡ r ∷ rest
      → c' ≡ record c { waiting = rest; phase = draining first (drained ++ some r ∷ []) }
      → Move c c'
  drains_nil :
      (first : Request) (drained : List (Option Request))
      → c.phase ≡ draining first drained
      → c.waiting ≡ []
      → c.closed ≡ true
      → c' ≡ record c { phase = draining first (drained ++ none ∷ []) }
      → Move c c'
  commits :
      (first : Request) (drained : List (Option Request)) (rs : List Request)
      (writes : ℕ → WriteOutcome) (syncs : Bool)
      → c.phase ≡ draining first drained
      → c.waiting ≡ []
      → c.closed ≡ false
      → dereferenced drained ≡ some rs
      → c' ≡ settle first rs writes syncs c
      → Move c c'
  exits :
      c.phase ≡ ranging
      → c.waiting ≡ []
      → c.closed ≡ true
      → c' ≡ record c { phase = exited }
      → Move c c'

pub data Moves (start : Channel) : Channel → Type 0 where
  here : Moves start start
  next : {c c' : Channel} → Moves start c → Move c c' → Moves start c'
