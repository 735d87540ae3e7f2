-- ===== src/Supervisor.antt =====
-- The supervision of child runs in agent-platform/supervisor/.
pub mod Budget
pub mod Examples
