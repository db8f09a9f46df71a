-- ===== src/Retry.antt =====
-- internal/uptimerobot/retry.go: the retry of an HTTP request. Durations are in nanoseconds.
pub mod Delay
pub mod Attempts
pub mod Laws
pub mod DelayLaws
