-- ===== src/Webhook.antt =====
-- The webhook crate (crates/webhook/src): payloads, events, commands, routing, intake and the API.
pub mod Payload
pub mod Commands
pub mod Replies
pub mod Routing
pub mod Intake
pub mod Api
