-- ===== src/Examples/Records.antt =====
-- internal/queue/record.go
use gojobs.Prelude.{ℕ, ◌≡◌, refl, List, [], ◌∷◌, ◌++◌, arith}
use gojobs.Prelude.Run.{Error, ok, err, short_read, unknown_op, ◌>>=◌, Returns}
use gojobs.Clock.{unix_nano}
use gojobs.Record.Bytes.{put_be, get_be}
use gojobs.Record.Read.{read_n}
use gojobs.Record.Encode.{body, encode_dead_payload}
use gojobs.Record.Decode.{decode_record, decode_dead_payload}
use gojobs.Record.RoundTrip.{decode_record-body}
use gojobs.Record.Safety.{decode_record-Returns}
use gojobs.Record.Truncated.{decode_record-truncated}
use gojobs.Examples.Data.{from_sixteen, from_sixteen-ReadsUuid, enqueued, buried_task}

decode_record-body_example : (body enqueued >>= decode_record from_sixteen) ≡ ok enqueued
decode_record-body_example =
    decode_record-body from_sixteen from_sixteen-ReadsUuid enqueued (omega arith)

decode_record-Returns_example : Returns (decode_record from_sixteen (1 ∷ 2 ∷ 3 ∷ []))
decode_record-Returns_example = decode_record-Returns from_sixteen (1 ∷ 2 ∷ 3 ∷ [])

-- The body of a DEAD record: the tag, the ID, the retries and the time, whose last byte is missing.
abbrev cut_body : List ℕ
cut_body =
    5 ∷ 0 ∷ 0 ∷ 0 ∷ 0 ∷ 0 ∷ 0 ∷ 0 ∷ 0 ∷ 0 ∷ 0 ∷ 0 ∷ 0 ∷ 0 ∷ 0 ∷ 0 ∷ 9 ∷ 0 ∷ 0 ∷ 0 ∷ 4 ∷ 23 ∷ 151
    ∷ 156 ∷ 254 ∷ 54 ∷ 42 ∷ 0 ∷ []

body_bytes : body buried_task ≡ ok (cut_body ++ 0 ∷ [])
unfolding body encode_dead_payload put_be unix_nano
body_bytes = refl

decode_record-truncated_example : (e : Error) × (decode_record from_sixteen cut_body ≡ err e)
decode_record-truncated_example =
    decode_record-truncated from_sixteen buried_task cut_body [] 0 from_sixteen-ReadsUuid
      (omega arith) body_bytes

cut_short : decode_record from_sixteen cut_body ≡ err short_read
unfolding decode_record decode_dead_payload read_n get_be from_sixteen
cut_short = refl

unknown_tag : decode_record from_sixteen (8 ∷ []) ≡ err unknown_op
unfolding decode_record
unknown_tag = refl
