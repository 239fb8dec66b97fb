-- ===== src/Sdk.antt =====
-- primus-sdk.
pub mod Transaction
pub mod Proof
