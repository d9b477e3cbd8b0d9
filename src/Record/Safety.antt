-- ===== src/Record/Safety.antt =====
-- The decoders on any bytes (internal/queue/record.go).
use gojobs.Prelude.{ℕ, Option, List, [], ◌∷◌, arith}
use gojobs.Prelude.Run.{Returns}
use gojobs.Record.Read.{read_n-Returns}
use gojobs.Record.Decode.{
  decode_enqueue_payload, decode_dequeue_payload, decode_ack_payload, decode_retry_payload,
  decode_dead_payload, decode_requeue_payload, decode_purge_payload, decode_record,
}

module _ (from_bytes : List ℕ → Option ℕ) (b : List ℕ) where
  enqueue-Returns : Returns (decode_enqueue_payload from_bytes b)
  unfolding decode_enqueue_payload
  enqueue-Returns = grind (arith, read_n-Returns)

  dequeue-Returns : Returns (decode_dequeue_payload from_bytes b)
  unfolding decode_dequeue_payload
  dequeue-Returns = grind (arith, read_n-Returns)

  ack-Returns : Returns (decode_ack_payload from_bytes b)
  unfolding decode_ack_payload
  ack-Returns = grind (arith, read_n-Returns)

  retry-Returns : Returns (decode_retry_payload from_bytes b)
  unfolding decode_retry_payload
  retry-Returns = grind (arith, read_n-Returns)

  dead-Returns : Returns (decode_dead_payload from_bytes b)
  unfolding decode_dead_payload
  dead-Returns = grind (arith, read_n-Returns)

  requeue-Returns : Returns (decode_requeue_payload from_bytes b)
  unfolding decode_requeue_payload
  requeue-Returns = grind (arith, read_n-Returns)

  purge-Returns : Returns (decode_purge_payload from_bytes b)
  unfolding decode_purge_payload
  purge-Returns = grind (arith, read_n-Returns)

-- On any bytes whatever, decoding returns a record or an error: no slice is out of range.
pub decode_record-Returns :
    (from_bytes : List ℕ → Option ℕ) (b : List ℕ) → Returns (decode_record from_bytes b)
unfolding decode_record
decode_record-Returns from_bytes [] = tt
decode_record-Returns from_bytes (op ∷ b) = ground (
  arith,
  enqueue-Returns from_bytes b,
  dequeue-Returns from_bytes b,
  ack-Returns from_bytes b,
  retry-Returns from_bytes b,
  dead-Returns from_bytes b,
  requeue-Returns from_bytes b,
  purge-Returns from_bytes b,
)
