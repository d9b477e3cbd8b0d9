-- ===== src/Queue.antt =====
-- internal/queue/queue.go: the queue, its methods, and its recovery from the log.
pub mod State
pub mod Backoff
pub mod Methods
pub mod DeadLetter
pub mod Spec
pub mod Recovery
pub mod Durability
pub mod Tracking
pub mod Places
pub mod Shrinking
pub mod Lifetime
pub mod Ledger
pub mod Delivery
pub mod Idempotency
pub mod Overlap
pub mod FailClosed
pub mod Retries
