-- ===== src/Finalizer.antt =====
-- internal/controller/finalizer.go: the cleanup of a remote resource before its finalizer goes.
-- Times and durations are in nanoseconds.
pub mod Annotations
pub mod Backoff
pub mod Cleanup
pub mod Tracking
pub mod Laws
pub mod BackoffLaws
pub mod TrackingLaws
