-- ===== src/Record/RoundTrip.antt =====
-- Decoding what was encoded (internal/queue/record.go).
use gojobs.Prelude.{ℕ, ◌+◌, ◌^◌, ◌<◌, ◌≡◌, sym, ◌∙◌, Option, some, List, length, arith}
use gojobs.Prelude.Run.{ok, ◌>>=◌}
use gojobs.Clock.{HasUnixNano, unix_nano, unix_nano-lt, from_unix_nano-unix_nano}
use gojobs.Record.Bytes.{put_be, get_be, length-put_be, get_be-put_be}
use gojobs.Record.Read.{read_n, AtRest-start, read_step, read_last}
use gojobs.Record.Payload.{
  EnqueuePayload, DequeuePayload, DeadPayload, Record, enqueue, dequeue, ack, retry, dead, requeue,
  purge,
}
use gojobs.Record.Encode.{
  uint32, body, encode_enqueue_payload, encode_dequeue_payload, encode_ack_payload,
  encode_retry_payload, encode_dead_payload, encode_requeue_payload, encode_purge_payload,
}
use gojobs.Record.Decode.{
  decode_enqueue_payload, decode_dequeue_payload, decode_ack_payload, decode_retry_payload,
  decode_dead_payload, decode_requeue_payload, decode_purge_payload, decode_record,
}

-- `uuid.FromBytes` reads back the sixteen bytes of a UUID.
pub record ReadsUuid (from_bytes : List ℕ → Option ℕ) : Type 0 where
  pub at : (id : ℕ) → id < 2 ^ 128 → from_bytes (put_be 16 id) ≡ some id

-- The values that a record can hold: a UUID has sixteen bytes, a length and a count fit 32 bits.
abbrev pub Fits : Record → Type 0
Fits (enqueue p) =
    (p.id < 2 ^ 128)
    × (length p.idempotency_key < 2 ^ 32)
    × (length p.payload < 2 ^ 32)
    × HasUnixNano p.enqueued_at
    × (p.priority < 2 ^ 32)
Fits (dequeue p) = (p.id < 2 ^ 128) × HasUnixNano p.lease_until × (length p.owner < 2 ^ 32)
Fits (ack p) = p.id < 2 ^ 128
Fits (retry p) = p.id < 2 ^ 128
Fits (dead p) = (p.id < 2 ^ 128) × (p.retries < 2 ^ 32) × HasUnixNano p.failed_at
Fits (requeue p) = p.id < 2 ^ 128
Fits (purge p) = p.id < 2 ^ 128

get_be-uint32 : (n : ℕ) → n < 2 ^ 32 → get_be (put_be 4 (uint32 n)) ≡ n
get_be-uint32 n h = get_be-put_be 4 (uint32 n) (omega arith) ∙ omega arith

get_be-unix_nano : (t : ℕ) → get_be (put_be 8 (unix_nano t)) ≡ unix_nano t
get_be-unix_nano t = get_be-put_be 8 (unix_nano t) (omega (arith, unix_nano-lt t))

module _ (from_bytes : List ℕ → Option ℕ) (reads : ReadsUuid from_bytes) where
  enqueue_trip :
      (p : EnqueuePayload)
      → Fits (enqueue p)
      → (encode_enqueue_payload p >>= decode_enqueue_payload from_bytes) ≡ ok p
  unfolding encode_enqueue_payload decode_enqueue_payload
  enqueue_trip p (hid, hk, hp, ht, hn) =
      let key_length = uint32 (length p.idempotency_key) in
      let payload_length = uint32 (length p.payload) in
      let s0 = read_step (put_be 16 p.id) _ 16 (length-put_be 16 p.id) (AtRest-start _) in
      let s1 = read_step (put_be 4 key_length) _ 4 (length-put_be 4 _) s0.1 in
      let s2 = read_step p.idempotency_key _ _ (sym (get_be-uint32 _ hk)) s1.1 in
      let s3 = read_step (put_be 4 payload_length) _ 4 (length-put_be 4 _) s2.1 in
      let s4 = read_step p.payload _ _ (sym (get_be-uint32 _ hp)) s3.1 in
      let s5 = read_step (put_be 8 (unix_nano p.enqueued_at)) _ 8 (length-put_be 8 _) s4.1 in
      let s6 = read_last (put_be 4 (uint32 p.priority)) 4 (length-put_be 4 _) s5.1 in
      rw (
        s0.0,
        reads.at p.id hid,
        s1.0,
        s2.0,
        s3.0,
        s4.0,
        s5.0,
        s6,
        get_be-unix_nano,
        from_unix_nano-unix_nano _ ht,
        get_be-uint32 _ hn,
      )

  dequeue_trip :
      (p : DequeuePayload)
      → Fits (dequeue p)
      → (encode_dequeue_payload p >>= decode_dequeue_payload from_bytes) ≡ ok p
  unfolding encode_dequeue_payload decode_dequeue_payload
  dequeue_trip p (hid, ht, ho) =
      let s0 = read_step (put_be 16 p.id) _ 16 (length-put_be 16 p.id) (AtRest-start _) in
      let s1 = read_step (put_be 8 (unix_nano p.lease_until)) _ 8 (length-put_be 8 _) s0.1 in
      let s2 = read_step (put_be 4 (uint32 (length p.owner))) _ 4 (length-put_be 4 _) s1.1 in
      let s3 = read_last p.owner _ (sym (get_be-uint32 _ ho)) s2.1 in
      rw (s0.0, reads.at p.id hid, s1.0, s2.0, s3, get_be-unix_nano, from_unix_nano-unix_nano _ ht)

  dead_trip :
      (p : DeadPayload)
      → Fits (dead p)
      → (encode_dead_payload p >>= decode_dead_payload from_bytes) ≡ ok p
  unfolding encode_dead_payload decode_dead_payload
  dead_trip p (hid, hr, ht) =
      let s0 = read_step (put_be 16 p.id) _ 16 (length-put_be 16 p.id) (AtRest-start _) in
      let s1 = read_step (put_be 4 (uint32 p.retries)) _ 4 (length-put_be 4 _) s0.1 in
      let s2 = read_last (put_be 8 (unix_nano p.failed_at)) 8 (length-put_be 8 _) s1.1 in
      rw (
        s0.0,
        reads.at p.id hid,
        s1.0,
        s2,
        get_be-unix_nano,
        from_unix_nano-unix_nano _ ht,
        get_be-uint32 _ hr,
      )

  -- The one field of the other records.
  read_id : (id : ℕ) → read_n (put_be 16 id) 0 16 ≡ ok (put_be 16 id, 0 + 16)
  read_id id = read_last (put_be 16 id) 16 (length-put_be 16 id) (AtRest-start _)

  -- Decoding the body of a record whose values fit their fields gives back the record.
  pub decode_record-body : (r : Record) → Fits r → (body r >>= decode_record from_bytes) ≡ ok r
  unfolding body decode_record
  decode_record-body (enqueue p) h = unfold encode_enqueue_payload in rw (enqueue_trip p h)
  decode_record-body (dequeue p) h = unfold encode_dequeue_payload in rw (dequeue_trip p h)
  decode_record-body (ack p) h =
      unfold encode_ack_payload decode_ack_payload in rw (read_id p.id, reads.at p.id h)
  decode_record-body (retry p) h =
      unfold encode_retry_payload decode_retry_payload in rw (read_id p.id, reads.at p.id h)
  decode_record-body (dead p) h = unfold encode_dead_payload in rw (dead_trip p h)
  decode_record-body (requeue p) h =
      unfold encode_requeue_payload decode_requeue_payload in rw (read_id p.id, reads.at p.id h)
  decode_record-body (purge p) h =
      unfold encode_purge_payload decode_purge_payload in rw (read_id p.id, reads.at p.id h)
