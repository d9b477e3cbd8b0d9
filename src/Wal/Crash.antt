-- ===== src/Wal/Crash.antt =====
-- What a crash leaves of the log (internal/queue/wal.go: run, Append, Replay).
use gojobs.Prelude.{
  ℕ, suc, ◌+◌, ◌-◌, ◌≤◌, ◌≡◌, refl, sym, ap, ◌∙◌, Bool, true, false, some, none, List, [], ◌∷◌,
  ◌++◌, append-nil, append_assoc, length, take, take-all, take-take, take-append_add,
  take-append_right, take-append_min, length-append, arith, inl, inr, ◌⊎◌,
}
use Prim.Native.Nat.{min}
use gojobs.Prelude.Run.{Run}
use gojobs.Wal.Frame.{frame, encode_frame}
use gojobs.Wal.Replay.{frames, AllFit, replay, apply_all, replay-frames}
use gojobs.Wal.Cut.{Cut, cut, frames-append, AllFit-append}
use gojobs.Wal.Writer.{
  Wal, Batch, WriteOutcome, written, failed, Status, requests, write_frame, or_break, write_batch,
  sync_batch, commit_batch,
}

-- The log holds the frames of the records `acked`, and all of it is on disk.
pub record IsClean (acked : List (List ℕ)) (w : Wal) : Type 0 where
  pub holds : w.bytes ≡ frames acked
  pub durable : w.synced ≡ length w.bytes

-- What a run of writes leaves: some of the bytes of the frames, and all of them if none failed.
record Written (recs : List (List ℕ)) (w : Wal) (after : Status) : Type 0 where
  count : ℕ
  bytes : after.1.bytes ≡ w.bytes ++ take count (frames recs)
  synced : after.1.synced ≡ w.synced
  whole : after.0 ≡ none → length (frames recs) ≤ count
  offset : after.0 ≡ none → after.1.offset ≡ w.offset + length (frames recs)

module _ (rec : List ℕ) (recs : List (List ℕ)) (w : Wal) (rest : Wal → Status)
    (continues : (w' : Wal) → Written recs w' (rest w')) where
  write_frame-Written :
      (outcome : WriteOutcome)
      → Written (rec ∷ recs) w (or_break (write_frame (encode_frame rec) outcome w) rest)
  unfolding write_frame encode_frame
  write_frame-Written written =
      let next : Wal = record w {
        bytes = w.bytes ++ frame rec;
        offset = w.offset + length (frame rec);
      } in
      let later = continues next in
      record {
        count = length (frame rec) + later.count;
        bytes =
            later.bytes
            ∙ append_assoc w.bytes (frame rec) (take later.count (frames recs))
            ∙ ap (λ l. w.bytes ++ l) (sym (take-append_add (frame rec) (frames recs) later.count));
        synced = later.synced;
        whole = λ e. omega (arith, later.whole e, length-append (frame rec) (frames recs));
        offset = λ e. omega (arith, later.offset e, length-append (frame rec) (frames recs));
      }
  write_frame-Written (failed n) = record {
    count = min n (length (frame rec));
    bytes = ap (λ l. w.bytes ++ l) (sym (take-append_min n (frame rec) (frames recs)));
    synced = refl;
    whole = λ e. cc;
    offset = λ e. cc;
  }

write_batch-Written :
    (recs : List (List ℕ)) (writes : ℕ → WriteOutcome) (w : Wal)
    → Written recs w (write_batch recs writes w)
unfolding write_batch
write_batch-Written [] writes w = record {
  count = 0;
  bytes = sym (append-nil w.bytes);
  synced = refl;
  whole = λ _. omega arith;
  offset = λ _. omega arith;
}
write_batch-Written (rec ∷ recs) writes w =
    write_frame-Written rec recs w (write_batch recs (λ i. writes (suc i)))
      (write_batch-Written recs (λ i. writes (suc i))) (writes 0)

-- What a committed batch leaves; all of it is on disk if its callers are told of no error.
record Committed (recs : List (List ℕ)) (w : Wal) (after : Status) : Type 0 where
  count : ℕ
  bytes : after.1.bytes ≡ w.bytes ++ take count (frames recs)
  synced : (after.1.synced ≡ w.synced) ⊎ (after.1.synced ≡ length after.1.bytes)
  whole : after.0 ≡ none → length (frames recs) ≤ count
  durable : after.0 ≡ none → after.1.synced ≡ length after.1.bytes
  offset : after.0 ≡ none → after.1.offset ≡ w.offset + length (frames recs)

sync_batch-Committed :
    (recs : List (List ℕ)) (w : Wal) (syncs : Bool) (after : Status)
    → Written recs w after
    → Committed recs w (sync_batch syncs after)
unfolding sync_batch
sync_batch-Committed recs w true (none, w') h = record {
  count = h.count;
  bytes = h.bytes;
  synced = inr refl;
  whole = h.whole;
  durable = λ _. refl;
  offset = h.offset;
}
sync_batch-Committed recs w false (none, w') h = record {
  count = h.count;
  bytes = h.bytes;
  synced = inl h.synced;
  whole = λ e. cc;
  durable = λ e. cc;
  offset = λ e. cc;
}
sync_batch-Committed recs w syncs (some x, w') h = record {
  count = h.count;
  bytes = h.bytes;
  synced = inl h.synced;
  whole = λ e. cc;
  durable = λ e. cc;
  offset = λ e. cc;
}

commit_batch-Committed : (b : Batch) (w : Wal) → Committed (requests b) w (commit_batch b w)
unfolding commit_batch
commit_batch-Committed b w =
    sync_batch-Committed (requests b) w b.syncs _ (write_batch-Written (requests b) b.writes w)

-- A batch whose callers are told of no error is in the log, whole and in order, and on disk.
pub group_commit :
    (b : Batch) (w : Wal)
    → (commit_batch b w).0 ≡ none
    → ((commit_batch b w).1.bytes ≡ w.bytes ++ frames (requests b))
      × ((commit_batch b w).1.synced ≡ length (commit_batch b w).1.bytes)
      × ((commit_batch b w).1.offset ≡ w.offset + length (frames (requests b)))
group_commit b w e =
    let h = commit_batch-Committed b w in
    (
      h.bytes ∙ ap (λ l. w.bytes ++ l) (take-all h.count (frames (requests b)) (h.whole e)),
      h.durable e,
      h.offset e,
    )

-- The records that a crash leaves are those that were acknowledged before, and the first ones of
-- the batch that was being written; all of these, if they were acknowledged too.
pub record Survives {ℓ} {S : Type ℓ} (apply : S → List ℕ → Run S) (acked : List (List ℕ))
    (b : Batch) (w : Wal) (k : ℕ) (s : S) : Type ℓ where
  pub kept : List (List ℕ)
  pub lost : List (List ℕ)
  pub split : requests b ≡ kept ++ lost
  pub replays :
      replay apply (take k (commit_batch b w).1.bytes) s ≡ apply_all apply (acked ++ kept) s
  pub acknowledged : (commit_batch b w).0 ≡ none → kept ≡ requests b

-- A clean log with some bytes behind it, cut somewhere behind the records that were acknowledged.
Cut-image :
    (acked recs : List (List ℕ)) (k n : ℕ)
    → length (frames acked) ≤ k
    → (c : Cut recs (min (k - length (frames acked)) n))
    → take k (frames acked ++ take n (frames recs)) ≡ frames (acked ++ c.kept) ++ c.torn
Cut-image acked recs k n h c =
    let left = k - length (frames acked) in
    take-append_right k (frames acked) (take n (frames recs)) h
    ∙ ap (λ l. frames acked ++ l) (take-take left n (frames recs) ∙ c.bytes)
    ∙ sym (append_assoc (frames acked) (frames c.kept) c.torn)
    ∙ ap (λ l. l ++ c.torn) (sym (frames-append acked c.kept))

-- A clean log of the records `acked`, a batch of records behind it that may fail anywhere, and a
-- crash that leaves the first `k` bytes, among them all that an fsync had covered. Replay applies
-- all of `acked`, then the first records of the batch, and all of them if its callers were told of
-- no error.
pub crash_survival {ℓ} :
    {S : Type ℓ} (apply : S → List ℕ → Run S) (acked : List (List ℕ)) (b : Batch) (w : Wal) (k : ℕ)
    (s : S)
    → AllFit acked
    → AllFit (requests b)
    → IsClean acked w
    → (commit_batch b w).1.synced ≤ k
    → Survives apply acked b w k s
crash_survival apply acked b w k s fits fits' clean floor =
    let h = commit_batch-Committed b w in
    let left = k - length (frames acked) in
    let c = cut (requests b) (min left h.count) fits' in
    let image = h.bytes ∙ ap (λ l. l ++ take h.count (frames (requests b))) clean.holds in
    let size = length-append (frames acked) (take h.count (frames (requests b))) in
    let enough : length (frames acked) ≤ k =
      omega (arith, h.synced, ap length image, size, ap length clean.holds, clean.durable) in
    let shape = ap (take k) image ∙ Cut-image acked (requests b) k h.count enough c in
    record {
      kept = c.kept;
      lost = c.lost;
      split = c.split;
      replays = rw shape (
          replay-frames apply (acked ++ c.kept) c.torn s (AllFit-append acked c.kept fits c.fits)
            c.ends);
      acknowledged = λ e. c.whole (
          omega (
            arith,
            h.whole e,
            h.durable e,
            ap length image,
            size,
            ap length (take-all h.count (frames (requests b)) (h.whole e)),
          ));
    }
