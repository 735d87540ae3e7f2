-- ===== src/Routing.antt =====
-- The routing policies of agent-platform/routing/.
pub mod ChargePolicy
pub mod Eligibility
pub mod Engine
pub mod Examples
