-- ===== src/Reasoning.antt =====
-- The bounded recursive reasoning of agent-platform/reasoning/recursive/: the engine over an
-- inference port and a clock that are parameters.
pub mod Engine
pub mod Bounds
pub mod Ends
pub mod Examples
