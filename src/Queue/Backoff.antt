-- ===== src/Queue/Backoff.antt =====
-- generateBackoff of internal/queue/queue.go. The floats are exact up to the cap: a power of two
-- times the base. `scale` multiplies by the random number below 1 and rounds down.
use gojobs.Prelude.{ℕ, ◌*◌, ◌^◌, ltb, if◌then◌else◌}
use gojobs.Clock.{second}

abbrev pub base_delay : ℕ
base_delay = 1 * second

abbrev pub max_delay : ℕ
max_delay = 30 * second

unfoldable pub backoff_ceiling : ℕ → ℕ
backoff_ceiling retry_attempt =
    let exp = base_delay * 2 ^ retry_attempt in if ltb max_delay exp then max_delay else exp

unfoldable pub generate_backoff : (ℕ → ℕ) → ℕ → ℕ
unfolding backoff_ceiling
generate_backoff scale retry_attempt = scale (backoff_ceiling retry_attempt)
