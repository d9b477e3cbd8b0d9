-- ===== src/Record/Decode.antt =====
-- The decoders of internal/queue/record.go, over `from_bytes`, the `FromBytes` of the uuid package.
use gojobs.Prelude.{ℕ, Option, none, some, List, [], ◌∷◌, ◌==◌, if◌then◌else◌}
use gojobs.Prelude.Run.{Run, Error, ok, err, bad_uuid, empty_body, unknown_op, ◌>>=◌}
use gojobs.Clock.{from_unix_nano}
use gojobs.Record.Bytes.{get_be}
use gojobs.Record.Read.{read_n}
use gojobs.Record.Payload.{
  EnqueuePayload, DequeuePayload, AckPayload, RetryPayload, DeadPayload, RequeuePayload,
  PurgePayload, Record, enqueue, dequeue, ack, retry, dead, requeue, purge, operation_enqueue,
  operation_dequeue, operation_ack, operation_retry, operation_dead, operation_requeue,
  operation_purge, tag,
}

abbrev pub or_err {ℓ} : {A : Type ℓ} → Option A → Error → Run A
or_err (some a) e = ok a
or_err none e = err e

module _ (from_bytes : List ℕ → Option ℕ) where
  unfoldable pub decode_enqueue_payload : List ℕ → Run EnqueuePayload
  decode_enqueue_payload b = do
    (id_bytes, pos) ← read_n b 0 16
    id ← or_err (from_bytes id_bytes) bad_uuid
    (key_len_bytes, pos) ← read_n b pos 4
    (key_bytes, pos) ← read_n b pos (get_be key_len_bytes)
    (payload_len_bytes, pos) ← read_n b pos 4
    (payload, pos) ← read_n b pos (get_be payload_len_bytes)
    (enq_bytes, pos) ← read_n b pos 8
    (prio_bytes, _) ← read_n b pos 4
    ok (record {
      id = id;
      idempotency_key = key_bytes;
      payload = payload;
      enqueued_at = from_unix_nano (get_be enq_bytes);
      priority = get_be prio_bytes;
    })

  unfoldable pub decode_dequeue_payload : List ℕ → Run DequeuePayload
  decode_dequeue_payload b = do
    (id_bytes, pos) ← read_n b 0 16
    id ← or_err (from_bytes id_bytes) bad_uuid
    (lease_bytes, pos) ← read_n b pos 8
    (owner_len_bytes, pos) ← read_n b pos 4
    (owner_bytes, _) ← read_n b pos (get_be owner_len_bytes)
    ok (record { id = id; lease_until = from_unix_nano (get_be lease_bytes); owner = owner_bytes })

  unfoldable pub decode_ack_payload : List ℕ → Run AckPayload
  decode_ack_payload b = do
    (id_bytes, _) ← read_n b 0 16
    id ← or_err (from_bytes id_bytes) bad_uuid
    ok (record { id = id })

  unfoldable pub decode_retry_payload : List ℕ → Run RetryPayload
  decode_retry_payload b = do
    (id_bytes, _) ← read_n b 0 16
    id ← or_err (from_bytes id_bytes) bad_uuid
    ok (record { id = id })

  unfoldable pub decode_dead_payload : List ℕ → Run DeadPayload
  decode_dead_payload b = do
    (id_bytes, pos) ← read_n b 0 16
    id ← or_err (from_bytes id_bytes) bad_uuid
    (ret_bytes, pos) ← read_n b pos 4
    (fail_bytes, _) ← read_n b pos 8
    ok (record {
      id = id;
      retries = get_be ret_bytes;
      failed_at = from_unix_nano (get_be fail_bytes);
    })

  unfoldable pub decode_requeue_payload : List ℕ → Run RequeuePayload
  decode_requeue_payload b = do
    (id_bytes, _) ← read_n b 0 16
    id ← or_err (from_bytes id_bytes) bad_uuid
    ok (record { id = id })

  unfoldable pub decode_purge_payload : List ℕ → Run PurgePayload
  decode_purge_payload b = do
    (id_bytes, _) ← read_n b 0 16
    id ← or_err (from_bytes id_bytes) bad_uuid
    ok (record { id = id })

  -- decodeRecord
  unfoldable pub decode_record : List ℕ → Run Record
  unfolding tag
  decode_record [] = err empty_body
  decode_record (op ∷ fields) =
      if op == tag operation_enqueue
      then (do p ← decode_enqueue_payload fields; ok (enqueue p))
      else if op == tag operation_dequeue
      then (do p ← decode_dequeue_payload fields; ok (dequeue p))
      else if op == tag operation_ack
      then (do p ← decode_ack_payload fields; ok (ack p))
      else if op == tag operation_retry
      then (do p ← decode_retry_payload fields; ok (retry p))
      else if op == tag operation_dead
      then (do p ← decode_dead_payload fields; ok (dead p))
      else if op == tag operation_requeue
      then (do p ← decode_requeue_payload fields; ok (requeue p))
      else if op == tag operation_purge
      then (do p ← decode_purge_payload fields; ok (purge p))
      else err unknown_op
