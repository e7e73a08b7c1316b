-- ===== src/Sync/Drain/Backoff.antt =====
-- core/notesnook-sync-coordinator.ts: the bounds of `backoffDelay`.
use nook_bridge.Common.{ℕ, ◌≤◌, max, arith}
use nook_bridge.Sync.Types.{max_delay_ms}
use nook_bridge.Sync.Drain.{Jitter, backoff_delay}

pub backoff_delay-le :
    (base attempt : ℕ) (j : Jitter) → backoff_delay base attempt j ≤ max base max_delay_ms
unfolding backoff_delay
backoff_delay-le base attempt j = ground arith

-- The delay before the retry of an attempt is never shorter than the base delay or longer than 60
-- seconds, when the base delay is within them.
pub backoff_delay_between :
    (base attempt : ℕ) (j : Jitter)
    → base ≤ max_delay_ms
    → (base ≤ backoff_delay base attempt j) × (backoff_delay base attempt j ≤ max_delay_ms)
unfolding backoff_delay
backoff_delay_between base attempt j h = ground arith
