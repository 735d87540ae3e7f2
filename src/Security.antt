-- ===== src/Security.antt =====
-- The credential broker of agent-platform/security/.
pub mod Broker
pub mod Examples
