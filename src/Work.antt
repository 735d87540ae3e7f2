-- ===== src/Work.antt =====
-- The runs of an issue as agent-platform/widget_contract/run_authority.py reads them from two stores,
-- and the next action that next_action.py derives from them.
pub mod Moments
pub mod Summary
pub mod Correlate
pub mod Freshness
pub mod NextAction
pub mod Examples
