-- ===== src/Mandate.antt =====
-- Mandate verification: agent-platform/cortxt_mcp/mandate.py, nonce_store.py and
-- revocation_store.py. The children hold the parts; a proof module stands under what it proves.
pub mod Check
pub mod Timestamp
pub mod Envelope
pub mod Verify
pub mod Nonces
pub mod Budgets
pub mod Disk
pub mod Samples
mod Examples
mod StoreExamples
pub mod Revocation
