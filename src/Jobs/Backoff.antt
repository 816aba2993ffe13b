-- ===== src/Jobs/Backoff.antt =====
-- The delay between the attempts of a job.
use nexora_gateway.Prelude.{ℕ, ◌-◌, ◌*◌, ◌/◌, ◌^◌, ◌≤◌, ◌<◌, min, max, arith}
use nexora_gateway.Jobs.{Jitter, compute_backoff_ms, exponential_ms}

-- For jitter below its argument, as ⌊random() * n⌋ is, the delay is at least one millisecond, at
-- least half of the exponential delay, at most the larger of one and the exponential delay, and at
-- most the larger of one and the limit.
pub compute_backoff_ms_bounds :
    (attempt base limit : ℕ) (jitter : Jitter)
    → ((n : ℕ) → 0 < n → jitter n < n)
    → let d = compute_backoff_ms attempt base limit jitter in
      (1 ≤ d)
      × (exponential_ms attempt base limit / 2 ≤ d)
      × (d ≤ max 1 (exponential_ms attempt base limit))
      × (d ≤ max 1 limit)
unfolding compute_backoff_ms
compute_backoff_ms_bounds attempt base limit jitter h =
    omega (arith, h (max 1 (min limit (base * 2 ^ (attempt - 1)) / 2)) (omega arith))
