-- ===== src/Api.antt =====
-- internal/uptimerobot/client.go: the calls of the UptimeRobot API.
pub mod Transport
pub mod Listing
pub mod Monitors
pub mod Create
pub mod Wire
pub mod Codec
pub mod Account
pub mod Integrations
pub mod Windows
pub mod Groups
