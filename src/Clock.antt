-- ===== src/Clock.antt =====
-- `time.Time` and `time.Duration` as the program uses them (internal/queue/task.go, record.go).
-- A `Time` is the number of nanoseconds since the zero time, the start of the year 1, so that
-- `time.Time{}` is 0. A duration that is never negative is its number of nanoseconds.
use gojobs.Prelude.{ℕ, ◌+◌, ◌-◌, ◌*◌, ◌%◌, ◌^◌, ◌≤◌, ◌<◌, ◌≡◌, Bool, arith, ltb, if◌then◌else◌}

-- `time.Time{}`
abbrev pub zero_time : ℕ
zero_time = 0

abbrev pub second : ℕ
second = 1_000_000_000

-- The Unix epoch, 1970-01-01, after the zero time.
abbrev pub unix_epoch : ℕ
unix_epoch = 62_135_596_800 * second

-- t.Before(u), t.After(u)
abbrev pub before : ℕ → ℕ → Bool
before t u = ltb t u

abbrev pub after : ℕ → ℕ → Bool
after t u = ltb u t

-- uint64(t.UnixNano()): the offset from the epoch as a signed 64-bit number, and its bit pattern.
unfoldable pub unix_nano : ℕ → ℕ
unix_nano t = (t + 4 * 2 ^ 64 - unix_epoch) % 2 ^ 64

-- time.Unix(0, int64(n)).UTC()
unfoldable pub from_unix_nano : ℕ → ℕ
from_unix_nano n = if ltb n (2 ^ 63) then unix_epoch + n else unix_epoch + n - 2 ^ 64

-- The instants that `UnixNano` can represent (the years 1678 to 2262).
abbrev pub HasUnixNano : ℕ → Type 0
HasUnixNano t = (unix_epoch ≤ t + 2 ^ 63) × (t < unix_epoch + 2 ^ 63)

pub from_unix_nano-unix_nano : (t : ℕ) → HasUnixNano t → from_unix_nano (unix_nano t) ≡ t
unfolding unix_nano from_unix_nano
from_unix_nano-unix_nano t h = ground arith

pub unix_nano-lt : (t : ℕ) → unix_nano t < 2 ^ 64
unfolding unix_nano
unix_nano-lt t = omega arith
