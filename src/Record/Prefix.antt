-- ===== src/Record/Prefix.antt =====
-- Bodies that were cut short, and bodies with more bytes behind them (internal/queue/record.go).
use gojobs.Prelude.{
  ℕ, zero, suc, ◌≡◌, refl, Option, List, [], ◌∷◌, ◌++◌, ◌+◌, ◌-◌, ◌≤◌, length, length-append,
  length-drop, length-take, take, drop, arith,
}
use gojobs.Prelude.Run.{Run, ok}
use gojobs.Record.Payload.{
  Record, EnqueuePayload, DequeuePayload, AckPayload, RetryPayload, DeadPayload, RequeuePayload,
  PurgePayload, enqueue, dequeue, ack, retry, dead, requeue, purge,
}
use gojobs.Record.Read.{read_n}
use gojobs.Record.Decode.{
  decode_enqueue_payload, decode_dequeue_payload, decode_ack_payload, decode_retry_payload,
  decode_dead_payload, decode_requeue_payload, decode_purge_payload, decode_record,
}

take-append_prefix {ℓ} :
    {A : Type ℓ} (n : ℕ) (xs ys : List A) → n ≤ length xs → take n (xs ++ ys) ≡ take n xs
take-append_prefix zero xs ys h = refl
take-append_prefix (suc n) [] ys h = absurd (omega arith)
take-append_prefix (suc n) (x ∷ xs) ys h = cc (take-append_prefix n xs ys (omega arith))

slice-append {ℓ} :
    {A : Type ℓ} (pos n : ℕ) (xs ys : List A)
    → pos + n ≤ length xs
    → take n (drop pos (xs ++ ys)) ≡ take n (drop pos xs)
slice-append zero n xs ys h = take-append_prefix n xs ys (omega arith)
slice-append (suc pos) n [] ys h = absurd (omega arith)
slice-append (suc pos) n (x ∷ xs) ys h = slice-append pos n xs ys (omega arith)

read_n-append :
    (b more : List ℕ) (pos n : ℕ) {r : List ℕ × ℕ}
    → read_n b pos n ≡ ok r
    → read_n (b ++ more) pos n ≡ ok r
unfolding read_n
read_n-append b more pos n h =
    ground (arith, length-append b more, width, slice-append pos n b more)
  where
    width : pos + n - pos ≡ n
    width = omega arith

-- The number of bytes in the body of a record.
abbrev pub width : Record → ℕ
width (enqueue p) = 37 + length p.idempotency_key + length p.payload
width (dequeue p) = 29 + length p.owner
width (ack p) = 17
width (retry p) = 17
width (dead p) = 29
width (requeue p) = 17
width (purge p) = 17

module _ (from_bytes : List ℕ → Option ℕ) (b more : List ℕ) where
  enqueue-append :
      {p : EnqueuePayload}
      → decode_enqueue_payload from_bytes b ≡ ok p
      → decode_enqueue_payload from_bytes (b ++ more) ≡ ok p
  unfolding decode_enqueue_payload
  enqueue-append h = grind (arith, read_n-append)

  dequeue-append :
      {p : DequeuePayload}
      → decode_dequeue_payload from_bytes b ≡ ok p
      → decode_dequeue_payload from_bytes (b ++ more) ≡ ok p
  unfolding decode_dequeue_payload
  dequeue-append h = grind (arith, read_n-append)

  ack-append :
      {p : AckPayload}
      → decode_ack_payload from_bytes b ≡ ok p
      → decode_ack_payload from_bytes (b ++ more) ≡ ok p
  unfolding decode_ack_payload
  ack-append h = grind (arith, read_n-append)

  retry-append :
      {p : RetryPayload}
      → decode_retry_payload from_bytes b ≡ ok p
      → decode_retry_payload from_bytes (b ++ more) ≡ ok p
  unfolding decode_retry_payload
  retry-append h = grind (arith, read_n-append)

  dead-append :
      {p : DeadPayload}
      → decode_dead_payload from_bytes b ≡ ok p
      → decode_dead_payload from_bytes (b ++ more) ≡ ok p
  unfolding decode_dead_payload
  dead-append h = grind (arith, read_n-append)

  requeue-append :
      {p : RequeuePayload}
      → decode_requeue_payload from_bytes b ≡ ok p
      → decode_requeue_payload from_bytes (b ++ more) ≡ ok p
  unfolding decode_requeue_payload
  requeue-append h = grind (arith, read_n-append)

  purge-append :
      {p : PurgePayload}
      → decode_purge_payload from_bytes b ≡ ok p
      → decode_purge_payload from_bytes (b ++ more) ≡ ok p
  unfolding decode_purge_payload
  purge-append h = grind (arith, read_n-append)

-- What a read returns: `n` bytes of `b`, and the offset behind them.
abbrev IsWithin : List ℕ → ℕ → ℕ → Run (List ℕ × ℕ) → Type 0
IsWithin b pos n (ok r) = (length r.0 ≡ n) × (r.1 ≡ pos + n) × (pos + n ≤ length b)
IsWithin b pos n _ = Unit

read_n-IsWithin : (b : List ℕ) (pos n : ℕ) → IsWithin b pos n (read_n b pos n)
unfolding read_n
read_n-IsWithin b pos n = ground (arith, step, length-drop pos b, length-take n (drop pos b))
  where
    step : pos + n - pos ≡ n
    step = omega arith

module _ (from_bytes : List ℕ → Option ℕ) (b : List ℕ) where
  enqueue-width :
      {p : EnqueuePayload}
      → decode_enqueue_payload from_bytes b ≡ ok p
      → width (enqueue p) ≤ suc (length b)
  unfolding decode_enqueue_payload
  enqueue-width h = grind (arith, read_n-IsWithin)

  dequeue-width :
      {p : DequeuePayload}
      → decode_dequeue_payload from_bytes b ≡ ok p
      → width (dequeue p) ≤ suc (length b)
  unfolding decode_dequeue_payload
  dequeue-width h = grind (arith, read_n-IsWithin)

  ack-width :
      {p : AckPayload} → decode_ack_payload from_bytes b ≡ ok p → width (ack p) ≤ suc (length b)
  unfolding decode_ack_payload
  ack-width h = grind (arith, read_n-IsWithin)

  retry-width :
      {p : RetryPayload}
      → decode_retry_payload from_bytes b ≡ ok p
      → width (retry p) ≤ suc (length b)
  unfolding decode_retry_payload
  retry-width h = grind (arith, read_n-IsWithin)

  dead-width :
      {p : DeadPayload} → decode_dead_payload from_bytes b ≡ ok p → width (dead p) ≤ suc (length b)
  unfolding decode_dead_payload
  dead-width h = grind (arith, read_n-IsWithin)

  requeue-width :
      {p : RequeuePayload}
      → decode_requeue_payload from_bytes b ≡ ok p
      → width (requeue p) ≤ suc (length b)
  unfolding decode_requeue_payload
  requeue-width h = grind (arith, read_n-IsWithin)

  purge-width :
      {p : PurgePayload}
      → decode_purge_payload from_bytes b ≡ ok p
      → width (purge p) ≤ suc (length b)
  unfolding decode_purge_payload
  purge-width h = grind (arith, read_n-IsWithin)

-- More bytes behind a body that decodes do not change what is decoded.
pub decode_record-append :
    (from_bytes : List ℕ → Option ℕ) (b more : List ℕ) (r : Record)
    → decode_record from_bytes b ≡ ok r
    → decode_record from_bytes (b ++ more) ≡ ok r
unfolding decode_record
decode_record-append from_bytes [] more r h = cc
decode_record-append from_bytes (op ∷ b) more r h = grind (
  arith,
  enqueue-append from_bytes b more,
  dequeue-append from_bytes b more,
  ack-append from_bytes b more,
  retry-append from_bytes b more,
  dead-append from_bytes b more,
  requeue-append from_bytes b more,
  purge-append from_bytes b more,
)

-- A body that decodes holds all the fields of its record.
pub decode_record-width :
    (from_bytes : List ℕ → Option ℕ) (b : List ℕ) (r : Record)
    → decode_record from_bytes b ≡ ok r
    → width r ≤ length b
unfolding decode_record
decode_record-width from_bytes [] r h = cc
decode_record-width from_bytes (op ∷ b) r h = grind (
  arith,
  enqueue-width from_bytes b,
  dequeue-width from_bytes b,
  ack-width from_bytes b,
  retry-width from_bytes b,
  dead-width from_bytes b,
  requeue-width from_bytes b,
  purge-width from_bytes b,
)
