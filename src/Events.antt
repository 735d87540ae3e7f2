-- ===== src/Events.antt =====
-- The event surface of agent-platform/events/.
pub mod Idempotency
pub mod Schema
pub mod Validation
pub mod Envelope
pub mod Signing
pub mod Dispatch
pub mod Examples
