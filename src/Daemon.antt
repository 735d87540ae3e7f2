-- ===== src/Daemon.antt =====
-- The unattended dispatcher of agent-platform/daemon/.
pub mod Gate
pub mod Autonomy
pub mod Loop
pub mod Examples
