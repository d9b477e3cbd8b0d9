-- ===== src/Record.antt =====
-- internal/queue/record.go: the records of the log and their bytes.
pub mod Bytes
pub mod Read
pub mod Payload
pub mod Encode
pub mod Decode
pub mod RoundTrip
pub mod Safety
pub mod Prefix
pub mod Truncated
