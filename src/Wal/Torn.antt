-- ===== src/Wal/Torn.antt =====
-- A frame of which only the first bytes were written (internal/queue/wal.go).
use gojobs.Prelude.{
  ℕ, ◌-◌, ◌%◌, ◌^◌, ◌<◌, ◌≤◌, ◌≡◌, ◌≢◌, refl, ap, ◌∙◌, List, [], ◌++◌, append_assoc, length, take,
  take-append_right, length-take, arith, inl, inr, ◌⊎◌,
}
use native.Mathlib.Decide.{dec_lt}
use gojobs.Prelude.Run.{Run, eof, unexpected_eof, corrupt_record}
use gojobs.Record.Bytes.{put_be, length-put_be}
use gojobs.Wal.Checksum.{checksum_ieee, checksum_ieee-lt}
use gojobs.Wal.Frame.{
  frame, decode_frame, decode_frame-header, length-frame, read_full-short, read_full-enough,
}
use gojobs.Wal.Replay.{EndsLog, ends_log, frames, AllFit, replay, apply_all, replay-frames}

pub EndsLog-nil : EndsLog []
unfolding decode_frame ends_log
EndsLog-nil = record { error = eof; stops = refl; clean = refl }

-- Fewer bytes than a header.
EndsLog-short : (torn : List ℕ) → length torn < 8 → EndsLog torn
unfolding decode_frame ends_log
EndsLog-short torn h = elim (read_full-short torn 8 h) [
  | inl e ↦ record { error = eof; stops = rw e; clean = refl }
  | inr e ↦ record { error = unexpected_eof; stops = rw e; clean = refl }
]

module _ (rec rest : List ℕ) (fits : length rec < 2 ^ 32) where
  -- A header with too few bytes behind it.
  EndsLog-few :
      length rest < length rec
      → EndsLog (put_be 4 (length rec % 2 ^ 32) ++ (put_be 4 (checksum_ieee rec) ++ rest))
  unfolding ends_log
  EndsLog-few short =
      let len = length rec % 2 ^ 32 in
      let crc = checksum_ieee rec in
      let e = decode_frame-header len crc rest (omega arith) (checksum_ieee-lt rec) in
      elim (read_full-short rest len (omega arith)) [
        | inl p ↦ record { error = eof; stops = e ∙ rw p; clean = refl }
        | inr p ↦ record { error = unexpected_eof; stops = e ∙ rw p; clean = refl }
      ]

  -- A header with bytes behind it that fail its sum.
  EndsLog-sum :
      length rec ≤ length rest
      → checksum_ieee (take (length rec) rest) ≢ checksum_ieee rec
      → EndsLog (put_be 4 (length rec % 2 ^ 32) ++ (put_be 4 (checksum_ieee rec) ++ rest))
  unfolding ends_log
  EndsLog-sum long bad =
      let len = length rec % 2 ^ 32 in
      let crc = checksum_ieee rec in
      let same : len ≡ length rec = omega arith in
      let e = decode_frame-header len crc rest (omega arith) (checksum_ieee-lt rec) in
      let read = read_full-enough rest (length rec) long in
      record { error = corrupt_record; stops = e ∙ rw (same, read) (ground arith); clean = refl }

  EndsLog-body :
      (length rest < length rec) ⊎ (checksum_ieee (take (length rec) rest) ≢ checksum_ieee rec)
      → EndsLog (put_be 4 (length rec % 2 ^ 32) ++ (put_be 4 (checksum_ieee rec) ++ rest))
  EndsLog-body (inl short) = EndsLog-few short
  EndsLog-body (inr bad) = elim (dec_lt (length rest) (length rec)) [
    | yes short ↦ EndsLog-few short
    | no long ↦ EndsLog-sum (omega arith) bad
  ]

-- The first bytes of a frame, its header among them.
take-frame :
    (rec : List ℕ) (k : ℕ)
    → 8 ≤ k
    → take k (frame rec)
      ≡ put_be 4 (length rec % 2 ^ 32) ++ (put_be 4 (checksum_ieee rec) ++ take (k - 8) rec)
take-frame rec k h =
    let header = put_be 4 (length rec % 2 ^ 32) in
    let sum = put_be 4 (checksum_ieee rec) in
    let four : length header ≡ 4 = length-put_be 4 _ in
    let four' : length sum ≡ 4 = length-put_be 4 _ in
    let rest : k - length header - length sum ≡ k - 8 = omega arith in
    take-append_right k header (sum ++ rec) (omega arith)
    ∙ ap (λ l. header ++ l)
        (take-append_right (k - length header) sum rec (omega arith)
          ∙ ap (λ j. sum ++ take j rec) rest)

-- The first bytes of a frame, but not all of them, end the log.
pub EndsLog-take :
    (rec : List ℕ) (k : ℕ)
    → length rec < 2 ^ 32
    → k < length (frame rec)
    → EndsLog (take k (frame rec))
EndsLog-take rec k fits h = elim (dec_lt k 8) [
  | yes short ↦
      EndsLog-short (take k (frame rec)) (omega (arith, length-take k (frame rec) (omega arith)))
  | no long ↦ rw (take-frame rec k (omega arith)) (
      EndsLog-few rec (take (k - 8) rec) fits
        (omega (arith, length-frame rec, length-take (k - 8) rec)))
]

-- Behind the first `k` bytes of a frame, its header among them, other bytes were appended. The log
-- ends at the torn frame, and nothing that was appended later is replayed, if the bytes do not
-- reach the length that the header announces, or do not happen to have the sum that it holds.
pub replay-behind_torn {ℓ} :
    {S : Type ℓ} (apply : S → List ℕ → Run S) (recs : List (List ℕ)) (rec later : List ℕ) (k : ℕ)
    (s : S)
    → AllFit recs
    → length rec < 2 ^ 32
    → 8 ≤ k
    → (length (take (k - 8) rec ++ later) < length rec)
      ⊎ (checksum_ieee (take (length rec) (take (k - 8) rec ++ later)) ≢ checksum_ieee rec)
    → replay apply (frames recs ++ (take k (frame rec) ++ later)) s ≡ apply_all apply recs s
replay-behind_torn apply recs rec later k s fits hr hk lost = replay-frames apply recs _ s fits ends
  where
    shape :
        take k (frame rec) ++ later
        ≡ put_be 4 (length rec % 2 ^ 32)
          ++ (put_be 4 (checksum_ieee rec) ++ (take (k - 8) rec ++ later))
    shape = rw (take-frame rec k hk) (rw (append_assoc, append_assoc))

    ends : EndsLog (take k (frame rec) ++ later)
    ends = rw shape (EndsLog-body rec (take (k - 8) rec ++ later) hr lost)
