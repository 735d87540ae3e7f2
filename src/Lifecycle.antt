-- ===== src/Lifecycle.antt =====
-- The run lifecycle of agent-platform/cortxt_mcp/run_lifecycle.py.
pub mod Schema
pub mod Runs
pub mod Envelope
pub mod Turns
pub mod Service
pub mod Resume
pub mod Review
pub mod Context
pub mod Gate
pub mod Writes
pub mod History
mod Samples
mod Examples
