-- ===== src/Request.antt =====
-- internal/uptimerobot/v3types.go and client.go: the bodies of the requests that create and update
-- a monitor. A nil slice or map is the empty list, and "" is an absent text, as `omitempty` sends
-- them.
pub mod Payload
pub mod Fields
pub mod Build
pub mod Laws
