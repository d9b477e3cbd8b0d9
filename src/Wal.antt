-- ===== src/Wal.antt =====
-- internal/queue/wal.go: frames, the writer goroutine, and replay.
pub mod Checksum
pub mod Frame
pub mod Replay
pub mod Writer
pub mod Torn
pub mod Cut
pub mod Crash
pub mod Channel
