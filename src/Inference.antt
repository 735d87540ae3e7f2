-- ===== src/Inference.antt =====
-- The provider policy of agent-platform/inference/.
pub mod Provider
pub mod BudgetGate
pub mod Examples
