-- ===== src/RateLimit.antt =====
-- backend/internal/ratelimit: the throttles. `SortedSet` is what the script asks of Redis, `Script`
-- the sliding window script, `Limiter` the Go half.
pub mod SortedSet
pub mod Script
pub mod Limiter
pub mod Window
pub mod Decision
pub mod Outage
mod Tests
