-- ===== src/Examples/Channels.antt =====
-- internal/queue/wal.go: Append and the writer, with one request that is answered and one that waits.
use gojobs.Prelude.{ℕ, refl, true, none, List, [], ◌∷◌, ◌++◌, arith}
use gojobs.Prelude.Run.{Run, ok}
use gojobs.Record.Bytes.{put_be}
use gojobs.Wal.Replay.{frames}
use gojobs.Wal.Writer.{open_wal, Batch, written, commit_batch}
use gojobs.Wal.Crash.{Survives}
use gojobs.Wal.Channel.{
  Request, draining, Channel, open_channel, send, settle, Moves, here, next, submits, wakes,
  drains_nil, commits,
}
use gojobs.Wal.Channel.Answers.{InOrder, sent, answered, Moves-InOrder}
use gojobs.Wal.Channel.Closing.{IsStuck, close-IsStuck}
use gojobs.Wal.Channel.Durable.{records_of, Moves-Survives}

-- The records that were applied, in order.
collect : List (List ℕ) → List ℕ → Run (List (List ℕ))
collect seen rec = ok (seen ++ rec ∷ [])

abbrev old_records : List (List ℕ)
old_records = (2 ∷ 7 ∷ []) ∷ []

abbrev start : Channel
start = open_channel (open_wal (frames old_records))

abbrev one : Request
one = record { number = 0; record_bytes = 3 ∷ 1 ∷ 4 ∷ [] }

abbrev two : Request
two = record { number = 1; record_bytes = 1 ∷ 5 ∷ [] }

abbrev submitted_one : Channel
submitted_one = sent one start

abbrev woken : Channel
woken = record submitted_one { waiting = []; phase = draining one [] }

abbrev answered_one : Channel
answered_one = settle one [] (λ i. written) true woken

abbrev waiting_two : Channel
waiting_two = sent two answered_one

to_submitted : Moves start submitted_one
unfolding open_channel send
to_submitted = next here (submits one (omega arith) refl)

to_woken : Moves start woken
unfolding open_channel
to_woken = next to_submitted (wakes one [] refl refl refl)

to_answered : Moves start answered_one
unfolding open_channel
to_answered = next to_woken (commits one [] [] (λ i. written) true refl refl refl refl refl)

to_waiting : Moves start waiting_two
unfolding open_channel send settle
to_waiting = next to_answered (submits two (omega arith) refl)

Moves-InOrder_example : InOrder waiting_two
Moves-InOrder_example = Moves-InOrder (open_wal (frames old_records)) waiting_two to_waiting

-- Close came while the writer held the first request, and it has received nil.
abbrev with_nil : Channel
with_nil = record woken { closed = true; phase = draining one (none ∷ []) }

close-IsStuck_example : IsStuck woken.replied with_nil
unfolding open_channel
close-IsStuck_example =
    close-IsStuck woken with_nil one [] refl (next here (drains_nil one [] refl refl refl refl))

abbrev last_batch : Batch
last_batch = record { first = two.record_bytes; drained = []; writes = λ i. written; syncs = true }

Moves-Survives_example :
    Survives collect
      (old_records ++ records_of (answered answered_one.replied))
      last_batch
      answered_one.wal
      31
      []
unfolding open_channel settle open_wal commit_batch put_be
Moves-Survives_example =
    Moves-Survives collect old_records answered_one last_batch 31 [] to_answered (refl, tt)
      (omega arith) (omega arith) (omega arith)
