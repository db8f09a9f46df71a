-- ===== src/Reconcile.antt =====
-- internal/controller/monitor_controller.go: the reconciler of monitors.
pub mod Session
pub mod Status
pub mod Access
pub mod Adopters
pub mod Deletion
pub mod Publish
pub mod Steps
pub mod Adopt
pub mod Sync
pub mod Main
