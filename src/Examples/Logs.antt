-- ===== src/Examples/Logs.antt =====
-- internal/queue/wal.go
use gojobs.Prelude.{
  ℕ, zero, suc, ◌+◌, ◌≡◌, refl, true, some, none, List, [], ◌∷◌, ◌++◌, length, take, inr, arith,
}
use gojobs.Prelude.Run.{Run, ok, io_error}
use gojobs.Record.Bytes.{put_be}
use gojobs.Wal.Frame.{frame}
use gojobs.Wal.Checksum.{checksum_ieee}
use gojobs.Wal.Replay.{replay, apply_all, frames, EndsLog, replay-frames}
use gojobs.Wal.Torn.{EndsLog-take, replay-behind_torn}
use gojobs.Wal.Writer.{Wal, Batch, written, failed, commit_batch}
use gojobs.Wal.Crash.{IsClean, Survives, group_commit, crash_survival}

-- The records that were applied, in order.
collect : List (List ℕ) → List ℕ → Run (List (List ℕ))
collect seen rec = ok (seen ++ rec ∷ [])

abbrev one : List ℕ
one = 3 ∷ 1 ∷ 4 ∷ []

abbrev two : List ℕ
two = 1 ∷ 5 ∷ []

-- A frame with one byte of its record.
torn_two : EndsLog (take 9 (frame two))
unfolding put_be
torn_two = EndsLog-take two 9 (omega arith) (omega arith)

replay-frames_example :
    replay collect (frames (one ∷ two ∷ []) ++ take 9 (frame two)) []
    ≡ apply_all collect (one ∷ two ∷ []) []
replay-frames_example =
    replay-frames collect (one ∷ two ∷ []) (take 9 (frame two)) [] (omega arith) torn_two

-- The frame of `one` was cut behind the first byte of its record, and the frame of `two` was appended
-- later: its bytes complete the length of the torn frame, and do not have its sum.
replay-behind_torn_example :
    replay collect (frames (two ∷ []) ++ (take 9 (frame one) ++ frame two)) []
    ≡ apply_all collect (two ∷ []) []
unfolding put_be checksum_ieee
replay-behind_torn_example =
    replay-behind_torn collect (two ∷ []) one (frame two) 9 [] (omega arith) (omega arith)
      (omega arith) (inr (omega arith))

abbrev good_batch : Batch
good_batch = record { first = one; drained = two ∷ []; writes = λ _. written; syncs = true }

abbrev clean_log : Wal
clean_log = record { bytes = frames (two ∷ []); synced = 10; offset = 10 }

good_reply : (commit_batch good_batch clean_log).0 ≡ none
unfolding commit_batch
good_reply = refl

group_commit_example :
    ((commit_batch good_batch clean_log).1.bytes ≡ frames (two ∷ []) ++ frames (one ∷ two ∷ []))
    × ((commit_batch good_batch clean_log).1.synced
        ≡ length (commit_batch good_batch clean_log).1.bytes)
    × ((commit_batch good_batch clean_log).1.offset ≡ 10 + length (frames (one ∷ two ∷ [])))
group_commit_example = group_commit good_batch clean_log good_reply

IsClean-clean_log : IsClean (two ∷ []) clean_log
unfolding put_be
IsClean-clean_log = record { holds = refl; durable = refl }

-- The second write fails after twelve bytes, the batch is refused, and the machine stops.
abbrev bad_batch : Batch
bad_batch = record {
  first = one;
  drained = two ∷ [];
  writes = λ i. elim i [ zero ↦ written | suc j ↦ failed 4 ];
  syncs = true;
}

bad_reply : (commit_batch bad_batch clean_log).0 ≡ some io_error
unfolding commit_batch
bad_reply = refl

bad_synced : (commit_batch bad_batch clean_log).1.synced ≡ 10
unfolding commit_batch
bad_synced = refl

crash_survival_example : Survives collect (two ∷ []) bad_batch clean_log 23 []
crash_survival_example =
    crash_survival collect (two ∷ []) bad_batch clean_log 23 [] (omega arith) (omega arith)
      IsClean-clean_log (omega (arith, bad_synced))
