-- ===== src/Examples/Data.antt =====
-- A reader of UUIDs, records and queues that the examples share.
use gojobs.Prelude.{
  ℕ, ◌+◌, ◌^◌, Option, some, none, List, [], ◌∷◌, length, arith, ◌==◌, if◌then◌else◌,
}
use gojobs.Clock.{unix_epoch}
use gojobs.Record.Bytes.{get_be, length-put_be, get_be-put_be}
use gojobs.Record.Payload.{Record, EnqueuePayload, enqueue, dead}
use gojobs.Record.RoundTrip.{ReadsUuid}

-- Sixteen bytes are a UUID.
unfoldable pub from_sixteen : List ℕ → Option ℕ
from_sixteen b = if length b == 16 then some (get_be b) else none

pub from_sixteen-ReadsUuid : ReadsUuid from_sixteen
unfolding from_sixteen
from_sixteen-ReadsUuid = record {
  at = λ id h. ground (arith, length-put_be 16 id, get_be-put_be 16 id (omega arith));
}

abbrev pub noon : ℕ
noon = unix_epoch + 1_700_000_000_000_000_000

-- The key "k1", the payload "hi".
abbrev pub first_task : EnqueuePayload
first_task = record {
  id = 2 ^ 127 + 5;
  idempotency_key = 107 ∷ 49 ∷ [];
  payload = 104 ∷ 105 ∷ [];
  enqueued_at = noon;
  priority = 0;
}

abbrev pub enqueued : Record
enqueued = enqueue first_task

abbrev pub buried_task : Record
buried_task = dead (record { id = 9; retries = 4; failed_at = noon })
