-- ===== src/Record/Encode.antt =====
-- The encoders of internal/queue/record.go. None of them fails.
use gojobs.Prelude.{ℕ, ◌%◌, ◌^◌, List, ◌∷◌, ◌++◌, length}
use gojobs.Prelude.Run.{Run, ok, ◌>>=◌}
use gojobs.Clock.{unix_nano}
use gojobs.Record.Bytes.{put_be}
use gojobs.Record.Payload.{
  OperationType, operation_enqueue, operation_dequeue, operation_ack, operation_retry,
  operation_dead, operation_requeue, operation_purge, tag, EnqueuePayload, DequeuePayload,
  AckPayload, RetryPayload, DeadPayload, RequeuePayload, PurgePayload, Record, enqueue, dequeue,
  ack, retry, dead, requeue, purge,
}

-- The conversion uint32(n) of a length or of an int.
abbrev pub uint32 : ℕ → ℕ
uint32 n = n % 2 ^ 32

unfoldable pub encode_enqueue_payload : EnqueuePayload → Run (List ℕ)
encode_enqueue_payload p = ok (
    put_be 16 p.id
    ++ (put_be 4 (uint32 (length p.idempotency_key))
        ++ (p.idempotency_key
            ++ (put_be 4 (uint32 (length p.payload))
                ++ (p.payload
                    ++ (put_be 8 (unix_nano p.enqueued_at) ++ put_be 4 (uint32 p.priority)))))))

unfoldable pub encode_dequeue_payload : DequeuePayload → Run (List ℕ)
encode_dequeue_payload p = ok (
    put_be 16 p.id
    ++ (put_be 8 (unix_nano p.lease_until) ++ (put_be 4 (uint32 (length p.owner)) ++ p.owner)))

unfoldable pub encode_ack_payload : AckPayload → Run (List ℕ)
encode_ack_payload p = ok (put_be 16 p.id)

unfoldable pub encode_retry_payload : RetryPayload → Run (List ℕ)
encode_retry_payload p = ok (put_be 16 p.id)

unfoldable pub encode_dead_payload : DeadPayload → Run (List ℕ)
encode_dead_payload p =
    ok (put_be 16 p.id ++ (put_be 4 (uint32 p.retries) ++ put_be 8 (unix_nano p.failed_at)))

unfoldable pub encode_requeue_payload : RequeuePayload → Run (List ℕ)
encode_requeue_payload p = ok (put_be 16 p.id)

unfoldable pub encode_purge_payload : PurgePayload → Run (List ℕ)
encode_purge_payload p = ok (put_be 16 p.id)

-- encodeRecord
unfoldable pub encode_record : OperationType → List ℕ → List ℕ
unfolding tag
encode_record op fields = tag op ∷ fields

-- The body of each record, as the queue's methods build it.
unfoldable pub body : Record → Run (List ℕ)
unfolding encode_record
body (enqueue p) = do f ← encode_enqueue_payload p; ok (encode_record operation_enqueue f)
body (dequeue p) = do f ← encode_dequeue_payload p; ok (encode_record operation_dequeue f)
body (ack p) = do f ← encode_ack_payload p; ok (encode_record operation_ack f)
body (retry p) = do f ← encode_retry_payload p; ok (encode_record operation_retry f)
body (dead p) = do f ← encode_dead_payload p; ok (encode_record operation_dead f)
body (requeue p) = do f ← encode_requeue_payload p; ok (encode_record operation_requeue f)
body (purge p) = do f ← encode_purge_payload p; ok (encode_record operation_purge f)
