-- ===== src/Wal/Frame.antt =====
-- encodeFrame and decodeFrame of internal/queue/wal.go. A reader is the bytes that it has left.
use gojobs.Prelude.{
  ℕ, zero, suc, ◌+◌, ◌%◌, ◌^◌, ◌<◌, ◌≤◌, ◌≡◌, refl, List, [], ◌∷◌, ◌++◌, append_assoc, length, take,
  drop, take-append, drop-append, length-append, arith, ◌==◌, ltb, if◌then◌else◌, ◌⊎◌,
}
use gojobs.Prelude.Run.{Run, ok, err, eof, unexpected_eof, corrupt_record, ◌>>=◌}
use gojobs.Record.Bytes.{put_be, get_be, length-put_be, get_be-put_be}
use gojobs.Wal.Checksum.{checksum_ieee, checksum_ieee-lt}

-- encodeFrame never fails.
unfoldable pub encode_frame : List ℕ → Run (List ℕ)
encode_frame rec = ok (put_be 4 (length rec % 2 ^ 32) ++ (put_be 4 (checksum_ieee rec) ++ rec))

-- io.ReadFull(r, make([]byte, n))
unfoldable pub read_full : List ℕ → ℕ → Run (List ℕ × List ℕ)
read_full r zero = ok ([], r)
read_full [] (suc n) = err eof
read_full (b ∷ r) (suc n) =
    if ltb (length r) n then err unexpected_eof else ok (b ∷ take n r, drop n r)

unfoldable pub decode_frame : List ℕ → Run (List ℕ × List ℕ)
unfolding read_full
decode_frame r = do
  (header, r) ← read_full r 8
  let record_length = get_be (take 4 header)
  let stored_crc = get_be (drop 4 header)
  (rec, r) ← read_full r record_length
  if checksum_ieee rec == stored_crc then ok (rec, r) else err corrupt_record

-- The bytes of a frame.
abbrev pub frame : List ℕ → List ℕ
frame rec = put_be 4 (length rec % 2 ^ 32) ++ (put_be 4 (checksum_ieee rec) ++ rec)

pub encode_frame-frame : (rec : List ℕ) → encode_frame rec ≡ ok (frame rec)
unfolding encode_frame
encode_frame-frame rec = refl

pub length-frame : (rec : List ℕ) → length (frame rec) ≡ 8 + length rec
length-frame rec = grind (arith, length-put_be, length-append)

pub read_full-short :
    (r : List ℕ) (n : ℕ)
    → length r < n
    → (read_full r n ≡ err eof) ⊎ (read_full r n ≡ err unexpected_eof)
unfolding read_full
read_full-short [] zero h = absurd (omega arith)
read_full-short [] (suc n) h = ground arith
read_full-short (b ∷ r) zero h = absurd (omega arith)
read_full-short (b ∷ r) (suc n) h = ground arith

pub read_full-enough : (r : List ℕ) (n : ℕ) → n ≤ length r → read_full r n ≡ ok (take n r, drop n r)
unfolding read_full
read_full-enough r zero h = refl
read_full-enough [] (suc n) h = absurd (omega arith)
read_full-enough (b ∷ r) (suc n) h = ground arith

read_field :
    (field rest : List ℕ) (n : ℕ)
    → length field ≡ n
    → read_full (field ++ rest) n ≡ ok (field, rest)
read_field field rest n e = rw (← e) (
    rw (
      read_full-enough (field ++ rest) (length field) (omega (arith, length-append field rest)),
      take-append,
      drop-append,
    ))

-- What follows a header is read by the length, and checked against the sum, that it announces.
abbrev pub read_body : ℕ → ℕ → List ℕ → Run (List ℕ × List ℕ)
read_body len crc rest = do
  (rec, r) ← read_full rest len
  if checksum_ieee rec == crc then ok (rec, r) else err corrupt_record

pub decode_frame-header :
    (len crc : ℕ) (rest : List ℕ)
    → len < 2 ^ 32
    → crc < 2 ^ 32
    → decode_frame (put_be 4 len ++ (put_be 4 crc ++ rest)) ≡ read_body len crc rest
unfolding decode_frame
decode_frame-header len crc rest hl hc = rw (← append_assoc (put_be 4 len) (put_be 4 crc) rest) (
    rw (read_field (put_be 4 len ++ put_be 4 crc) rest 8 wide) (
      rw (
        four (take-append (put_be 4 len) (put_be 4 crc)),
        four' (drop-append (put_be 4 len) (put_be 4 crc)),
        get_be-put_be 4 len hl,
        get_be-put_be 4 crc hc,
      )))
  where
    four :
        take (length (put_be 4 len)) (put_be 4 len ++ put_be 4 crc) ≡ put_be 4 len
        → take 4 (put_be 4 len ++ put_be 4 crc) ≡ put_be 4 len
    four e = rw (length-put_be 4 len) at e

    four' :
        drop (length (put_be 4 len)) (put_be 4 len ++ put_be 4 crc) ≡ put_be 4 crc
        → drop 4 (put_be 4 len ++ put_be 4 crc) ≡ put_be 4 crc
    four' e = rw (length-put_be 4 len) at e

    wide : length (put_be 4 len ++ put_be 4 crc) ≡ 8
    wide = grind (arith, length-put_be, length-append)

-- A frame is read back, with what follows it left to read.
pub decode_frame-frame :
    (rec rest : List ℕ) → length rec < 2 ^ 32 → decode_frame (frame rec ++ rest) ≡ ok (rec, rest)
decode_frame-frame rec rest h =
    let len = length rec % 2 ^ 32 in
    let crc = checksum_ieee rec in
    rw (shape, decode_frame-header len crc (rec ++ rest) (omega arith) (checksum_ieee-lt rec))
      (rw (read_field rec rest _ width) (ground arith))
  where
    width : length rec ≡ length rec % 2 ^ 32
    width = omega arith

    shape :
        frame rec ++ rest
        ≡ put_be 4 (length rec % 2 ^ 32) ++ (put_be 4 (checksum_ieee rec) ++ (rec ++ rest))
    shape = rw (append_assoc, append_assoc)
