-- ===== src/Learning.antt =====
-- The controlled learning loop of agent-platform/learning/: who may promote what.
pub mod Gate
pub mod Registry
pub mod Examples
