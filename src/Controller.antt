-- ===== src/Controller.antt =====
-- internal/controller: what the reconcilers of maintenance windows, monitor groups and Slack
-- integrations have in common.
pub mod Session
pub mod Status
pub mod Steps
pub mod Deletion
pub mod Watches
