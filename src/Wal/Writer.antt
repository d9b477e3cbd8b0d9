-- ===== src/Wal/Writer.antt =====
-- The writer goroutine of internal/queue/wal.go (`run`), one batch at a time. What the file does,
-- each write and the fsync, is an argument.
use gojobs.Prelude.{
  ℕ, suc, ◌+◌, Bool, true, false, Option, some, none, List, [], ◌∷◌, ◌++◌, length, take,
}
use mathlib.Core.List.{map}
use gojobs.Prelude.Run.{Run, Error, ok, err, io_error}
use gojobs.Wal.Frame.{encode_frame}

-- The file, and how many of its bytes are known to be on disk; `w.offset`.
pub record Wal : Type 0 where
  pub bytes : List ℕ
  pub synced : ℕ
  pub offset : ℕ

-- OpenWAL: the file is opened at its end, as it is.
unfoldable pub open_wal : List ℕ → Wal
open_wal bytes = record { bytes = bytes; synced = length bytes; offset = length bytes }

-- A `Write` takes the whole frame, or fails after some of its bytes.
pub data WriteOutcome : Type 0 where
  written : WriteOutcome
  failed : ℕ → WriteOutcome

-- The requests that one round coalesces, and what the file does with them.
pub record Batch : Type 0 where
  pub first : List ℕ
  pub drained : List (List ℕ)
  pub writes : ℕ → WriteOutcome
  pub syncs : Bool

abbrev pub requests : Batch → List (List ℕ)
requests b = b.first ∷ b.drained

-- `batchErr`, with the log as it is then.
abbrev pub Status : Type 0
Status = Option Error × Wal

unfoldable pub write_frame : Run (List ℕ) → WriteOutcome → Wal → Status
write_frame (ok f) written w =
    (none, record w { bytes = w.bytes ++ f; offset = w.offset + length f })
write_frame (ok f) (failed n) w = (some io_error, record w { bytes = w.bytes ++ take n f })
write_frame (err e) outcome w = (some e, w)
write_frame _ outcome w = (some io_error, w)

-- The loop goes on with the next request, or breaks at an error.
abbrev pub or_break : Status → (Wal → Status) → Status
or_break (none, w) rest = rest w
or_break (some e, w) rest = (some e, w)

unfoldable pub write_batch : List (List ℕ) → (ℕ → WriteOutcome) → Wal → Status
unfolding write_frame encode_frame
write_batch [] writes w = (none, w)
write_batch (rec ∷ recs) writes w =
    or_break (write_frame (encode_frame rec) (writes 0) w) (write_batch recs (λ i. writes (suc i)))

-- One fsync for the whole batch, unless a write failed.
unfoldable pub sync_batch : Bool → Status → Status
sync_batch true (none, w) = (none, record w { synced = length w.bytes })
sync_batch false (none, w) = (some io_error, w)
sync_batch syncs (some e, w) = (some e, w)

unfoldable pub commit_batch : Batch → Wal → Status
unfolding write_batch sync_batch
commit_batch b w = sync_batch b.syncs (write_batch (requests b) b.writes w)

-- Every caller of the batch receives the same outcome.
unfoldable pub replies : Batch → Option Error → List (Option Error)
replies b outcome = map (λ _. outcome) (requests b)

-- The rounds of the goroutine. The log, and what the callers received, in order.
unfoldable pub run : List Batch → Wal → List (Option Error) × Wal
unfolding commit_batch replies
run [] w = ([], w)
run (b ∷ batches) w =
    let (outcome, w') = commit_batch b w in
    let (later, w'') = run batches w' in (replies b outcome ++ later, w'')
