-- ===== src/Record/Truncated.antt =====
-- A body that was cut short is refused (internal/queue/record.go).
use gojobs.Prelude.{
  ℕ, ◌≡◌, sym, ◌∙◌, Option, List, ◌∷◌, ◌++◌, length, length-append, arith, ◌⊎◌, inl, inr, refl,
}
use gojobs.Prelude.Run.{Run, Error, ok, err, panic, out_of_fuel, Returns}
use gojobs.Record.Bytes.{length-put_be}
use gojobs.Record.Payload.{Record, enqueue, dequeue, ack, retry, dead, requeue, purge}
use gojobs.Record.Encode.{
  body, encode_enqueue_payload, encode_dequeue_payload, encode_ack_payload, encode_retry_payload,
  encode_dead_payload, encode_requeue_payload, encode_purge_payload,
}
use gojobs.Record.Decode.{decode_record}
use gojobs.Record.RoundTrip.{ReadsUuid, Fits, decode_record-body}
use gojobs.Record.Safety.{decode_record-Returns}
use gojobs.Record.Prefix.{width, decode_record-append, decode_record-width}

ruleset lengths = (arith, length-put_be, length-append)

length-body : (r : Record) {b : List ℕ} → body r ≡ ok b → length b ≡ width r
unfolding body
length-body (enqueue p) h = unfold encode_enqueue_payload in grind lengths
length-body (dequeue p) h = unfold encode_dequeue_payload in grind lengths
length-body (ack p) h = unfold encode_ack_payload in grind lengths
length-body (retry p) h = unfold encode_retry_payload in grind lengths
length-body (dead p) h = unfold encode_dead_payload in grind lengths
length-body (requeue p) h = unfold encode_requeue_payload in grind lengths
length-body (purge p) h = unfold encode_purge_payload in grind lengths

Run-cases {ℓ} :
    {A : Type ℓ} (m : Run A) → Returns m → ((a : A) × (m ≡ ok a)) ⊎ ((e : Error) × (m ≡ err e))
Run-cases (ok a) h = inl (a, refl)
Run-cases (err e) h = inr (e, refl)
Run-cases panic h = absurd h
Run-cases out_of_fuel h = absurd h

-- Every proper prefix of the body of a record whose values fit is refused with an error.
pub decode_record-truncated :
    (from_bytes : List ℕ → Option ℕ) (r : Record) (front back : List ℕ) (x : ℕ)
    → ReadsUuid from_bytes
    → Fits r
    → body r ≡ ok (front ++ x ∷ back)
    → (e : Error) × (decode_record from_bytes front ≡ err e)
decode_record-truncated from_bytes r front back x reads fits whole =
    elim (Run-cases (decode_record from_bytes front) (decode_record-Returns from_bytes front)) [
      | inl (r', e) ↦
          let more = decode_record-append from_bytes front (x ∷ back) r' e in
          let trip = rw whole at (decode_record-body from_bytes reads r fits) in
          let same : ok r' ≡ ok r = sym more ∙ trip in
          grind (
            arith,
            same,
            decode_record-width from_bytes front r' e,
            length-body r whole,
            length-append front (x ∷ back),
          )
      | inr failed ↦ failed
    ]
